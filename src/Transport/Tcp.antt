-- ===== src/Transport/Tcp.antt =====
-- `LanTcpTransport::request` of core/nexus-core/src/transport/lan.rs. To connect to an address is a
-- parameter: an error, a timeout included, or an end that answers the bytes it is sent with others
-- and closes the stream.
use nexus_p2p.Base.{◌%◌, ◌^◌, ◌++◌, leb, length}
use nexus_p2p.Base.Text.{Text, Bytes, codes}
use nexus_p2p.Base.Result.{fail, Result, ensure, ◌>>=◌, ◌>>◌}
use nexus_p2p.Base.Exec.{Exec, lift}
use nexus_p2p.Base.Exec
use nexus_p2p.External.{External}
use nexus_p2p.Model.{PeerEndpoint}
use nexus_p2p.Protocol.{WireEnvelope}
use nexus_p2p.Transport.Address.{format_address}
use nexus_p2p.Transport.Frames.{max_frame, u32_bytes, encode, decode, read_u32, read_exact}

module _ (x : External) where
  -- the part after the flush, on the stream from the other end
  unfoldable pub read_response : Exec Bytes WireEnvelope
  read_response = Exec.◌>>=◌ (read_u32 x) λ n.
      Exec.◌>>◌ (Exec.ensure (leb n max_frame) (fail (codes "peer frame too large")))
        (Exec.◌>>=◌ (read_exact x n) λ response. lift (decode x response))

  unfoldable pub request_over :
      (Text → Result (Bytes → Bytes)) → PeerEndpoint → WireEnvelope → Result WireEnvelope
  request_over connect endpoint message = do
    other_end ← connect (format_address endpoint)
    payload ← encode x message
    ensure (leb (length payload) max_frame) (fail (codes "wire frame too large"))
    (read_response (other_end (u32_bytes (length payload % 2 ^ 32) ++ payload))).0
