-- ===== src/Transport/Frames.antt =====
-- `read_frame` and `write_frame` of core/nexus-core/src/transport/lan.rs, with `encode` and
-- `decode` of protocol.rs. A stream that is read is what still comes from it before its end; one
-- that is written is what was written to it.
pub mod RoundTrip
use nexus_p2p.Base.{
  ℕ, ◌+◌, ◌*◌, ◌/◌, ◌%◌, ◌^◌, Bool, true, false, List, [], ◌∷◌, ◌++◌, leb, length, take, drop,
  if◌then◌else◌,
}
use nexus_p2p.Base.Text.{Bytes, codes}
use nexus_p2p.Base.Result.{Error, fail, Result, ok, err}
use nexus_p2p.Base.Exec.{Exec, lift, modify, ensure, ◌>>=◌, ◌>>◌}
use nexus_p2p.External.{External}
use nexus_p2p.Protocol.{WireEnvelope}

-- `MAX_FRAME`
abbrev pub max_frame : ℕ
max_frame = 8 * 1024 * 1024

-- the four bytes of a `u32`, the highest first
unfoldable pub u32_bytes : ℕ → Bytes
u32_bytes n = n / 16777216 % 256 ∷ n / 65536 % 256 ∷ n / 256 % 256 ∷ n % 256 ∷ []

module _ (x : External) where
  unfoldable pub encode : WireEnvelope → Result Bytes
  encode message = x.envelope_to_cbor message

  unfoldable pub decode : Bytes → Result WireEnvelope
  decode bytes = x.envelope_from_cbor bytes

  -- `read_u32`: a stream that ends before four bytes is an error.
  unfoldable pub read_u32 : Exec Bytes ℕ
  read_u32 (a ∷ b ∷ c ∷ d ∷ rest) = (ok (a * 16777216 + b * 65536 + c * 256 + d), rest)
  read_u32 _ = (err x.unexpected_eof, [])

  -- `read_exact` into a buffer of the given length
  unfoldable pub read_exact : ℕ → Exec Bytes Bytes
  read_exact n s =
      if leb n (length s) then (ok (take n s), drop n s) else (err x.unexpected_eof, [])

  unfoldable pub read_frame : Exec Bytes WireEnvelope
  read_frame = do
    n ← read_u32
    ensure (leb n max_frame) (fail (codes "incoming frame too large"))
    bytes ← read_exact n
    lift (decode bytes)

  unfoldable pub write_frame : WireEnvelope → Exec Bytes Unit
  write_frame message = do
    bytes ← lift (encode message)
    ensure (leb (length bytes) max_frame) (fail (codes "outgoing frame too large"))
    modify (λ out. out ++ u32_bytes (length bytes % 2 ^ 32))
    modify (λ out. out ++ bytes)
