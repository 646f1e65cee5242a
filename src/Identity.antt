-- ===== src/Identity.antt =====
-- core/nexus-core/src/identity.rs: the check of an announced identity, and the device's own.
pub mod Local
pub mod Persistence
use nexus_p2p.Base.{
  Bool, true, false, not, Option, none, some, List, [], take, ◌==◌, list_eq, nat_eq,
}
use nexus_p2p.Base.Text.{Text, Bytes, codes, trim}
use nexus_p2p.Base.Result.{fail, Result, ensure, ◌>>=◌, ◌>>◌}
use nexus_p2p.External.{External}
use nexus_p2p.Model.{DeviceId, PublicIdentity}

module _ (x : External) where
  -- the first 128 bits of the hash of the signing key, in hex
  unfoldable pub device_id_of : Bytes → DeviceId
  device_id_of signing_public_key = x.hex_encode (take 16 (x.blake3 signing_public_key))

  unfoldable pub validate_public_identity : PublicIdentity → Result (Unit {0})
  validate_public_identity public = do
    x.verifying_key public.signing_public_key
    ensure (public.device_id == device_id_of public.signing_public_key)
        (fail (codes "device id does not match signing key"))
    ensure (not (trim public.display_name == [])) (fail (codes "empty display name"))
