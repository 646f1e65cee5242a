-- ===== src/Storage/Identities.antt =====
-- The table `local_identity`: `load_identity`, `save_identity` and `update_identity_public` of
-- core/nexus-core/src/storage.rs.
use nexus_p2p.Base.{Option, none, some}
use nexus_p2p.Base.Text.{Text, codes}
use nexus_p2p.Base.Result.{fail}
use nexus_p2p.Base.Exec.{Exec, gets, modify, raise}
use nexus_p2p.Storage.{Store}

unfoldable pub load_identity : Exec Store (Option (Text × Text))
load_identity = gets (λ s. s.local_identity)

unfoldable pub save_identity : Text → Text → Exec Store Unit
save_identity public_json secret_json =
    modify (λ s. record s { local_identity = some (public_json, secret_json) })

-- An UPDATE that changes no row is an error.
unfoldable pub set_public : Text → Option (Text × Text) → Exec Store Unit
set_public public_json none = raise (fail (codes "local identity is missing"))
set_public public_json (some (_, secret_json)) =
    modify (λ s. record s { local_identity = some (public_json, secret_json) })

unfoldable pub update_identity_public : Text → Exec Store Unit
unfolding set_public
update_identity_public public_json s = set_public public_json s.local_identity s
