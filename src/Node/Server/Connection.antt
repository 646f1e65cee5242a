-- ===== src/Node/Server/Connection.antt =====
-- `handle_connection` of core/nexus-core/src/node.rs, from the bytes of a stream to the bytes of the
-- answer, and its meeting with the transport of the other end.
use mathlib.Core.List.{append-nil}
use nexus_p2p.Base.{ℕ, ◌%◌, ◌^◌, ◌≤◌, ◌≡◌, refl, sym, ap, ◌∙◌, arith, [], ◌++◌, le→leb, length}
use nexus_p2p.Base.Text.{Text, Bytes}
use nexus_p2p.Base.Result.{Result, ok, err}
use nexus_p2p.Base.Exec.{Exec, lift, ◌>>=◌}
use nexus_p2p.External.{External, IsLawful}
use nexus_p2p.Model.{PeerEndpoint}
use nexus_p2p.Protocol.{WireEnvelope}
use nexus_p2p.Transport.Address.{format_address}
use nexus_p2p.Transport.Frames.{
  max_frame, u32_bytes, encode, decode, read_exact, read_frame, write_frame,
}
use nexus_p2p.Transport.Frames.RoundTrip.{read_u32-u32_bytes, read_exact-append, framed}
use nexus_p2p.Transport.Tcp.{read_response, request_over}
use nexus_p2p.Node.{Node}
use nexus_p2p.Node.Server.{handle_request}

-- what was written to a stream, where that succeeded
abbrev pub output : Result (Unit {0}) × Bytes → Result Bytes
output (ok tt, out) = ok out
output (err e, out) = err e

module _ (x : External) where
  unfoldable pub handle_connection : Bytes → Exec Node Bytes
  handle_connection incoming = do
    request ← lift (read_frame x incoming).0
    reply ← handle_request x request
    lift (output (write_frame x reply []))

  -- A connection that fails is closed with nothing written.
  abbrev pub bytes_back : Result Bytes → Bytes
  bytes_back (ok out) = out
  bytes_back (err e) = []

  -- the end of a connection at a node
  unfoldable pub other_end : Node → Bytes → Bytes
  other_end n incoming = bytes_back (handle_connection incoming n).0

  -- The message is encoded within the bound of a frame.
  abbrev pub FitsFrame : WireEnvelope → Type 0
  FitsFrame m = (bytes : Bytes) × (x.envelope_to_cbor m ≡ ok bytes) × (length bytes ≤ max_frame)

  write_fitting :
      (m : WireEnvelope) (f : FitsFrame m)
      → output (write_frame x m []) ≡ ok (u32_bytes (length f.0) ++ f.0)
  unfolding write_frame encode
  write_fitting m (bytes, c, small) =
      let n : length bytes % 2 ^ 32 ≡ length bytes = omega (arith, small) in
      rw (c, le→leb (length bytes) max_frame small) (ap (λ (k : ℕ). ok (u32_bytes k ++ bytes)) n)

  module _ (law : IsLawful x) where
    read_fitting :
        (m : WireEnvelope) (f : FitsFrame m)
        → (read_frame x (u32_bytes (length f.0) ++ f.0)).0 ≡ ok m
    read_fitting m (bytes, c, small) =
        ap (λ (r : Result WireEnvelope × Bytes). r.0)
          (ap (λ (b : Bytes). read_frame x (u32_bytes (length bytes) ++ b)) (sym (append-nil bytes))
            ∙ framed x bytes [] m small (law.envelope_cbor m c))

    response_fitting :
        (m : WireEnvelope) (f : FitsFrame m)
        → (read_response x (u32_bytes (length f.0) ++ f.0)).0 ≡ ok m
    unfolding read_response decode
    response_fitting m (bytes, c, small) =
        let body : read_exact x (length bytes) bytes ≡ (ok bytes, []) =
          ap (read_exact x (length bytes)) (sym (append-nil bytes))
          ∙ read_exact-append x bytes [] in
        rw
          (
            read_u32-u32_bytes x (length bytes) bytes (omega (arith, small)),
            le→leb (length bytes) max_frame small,
            body,
            law.envelope_cbor m c,
          )
          refl

    -- Under the laws of the crates, where the address of an endpoint leads to a node, and a
    -- message and the reply of the handler of that node to it are each encoded within the bound of
    -- a frame, the transport returns that reply.
    pub request_over-handle_connection :
        (connect : Text → Result (Bytes → Bytes)) (endpoint : PeerEndpoint)
        (message reply : WireEnvelope) (n n' : Node)
        → connect (format_address endpoint) ≡ ok (other_end n)
        → FitsFrame message
        → FitsFrame reply
        → handle_request x message n ≡ (ok reply, n')
        → request_over x connect endpoint message ≡ ok reply
    unfolding request_over encode other_end handle_connection
    request_over-handle_connection connect endpoint message reply n n' c f g h =
        let size : length f.0 % 2 ^ 32 ≡ length f.0 = omega (arith, f.2) in
        rw
          (
            c,
            f.1,
            le→leb (length f.0) max_frame f.2,
            size,
            read_fitting message f,
            h,
            write_fitting reply g,
          )
          (response_fitting reply g)
