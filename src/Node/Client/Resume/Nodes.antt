-- ===== src/Node/Client/Resume/Nodes.antt =====
-- `resume_files` of core/nexus-core/src/node.rs where nodes of the same program answer.
use mathlib.Core.Path.{subst}
use nexus_p2p.Base.{
  ℕ, ◌<◌, ◌≡◌, ◌≢◌, sym, ap, inl, inr, Bool-cases, ◌∙◌, false, List, [], ◌∷◌, arith, ◌==◌, nat_eq,
  list_eq, contains, length, take,
}
use nexus_p2p.Base.Text.{Text, codes}
use nexus_p2p.Base.Result.{Error, fail, panic, Result, ok, err, Result-cases}
use nexus_p2p.Base.Exec.{Exec, traverse, pure, lift, ensure, some_or, ◌>>=◌}
use nexus_p2p.Base.Exec.Success.{>>=-eq-ok}
use nexus_p2p.External.{External}
use nexus_p2p.Model.{PublicIdentity, PeerEndpoint, Peer, protocol_version}
use nexus_p2p.Identity.{validate_public_identity}
use nexus_p2p.Protocol.{WireChunk, WireMessage, WireEnvelope}
use nexus_p2p.Crypto.Draws.{encrypt_chunk}
use nexus_p2p.Storage.Blobs.{get_blob}
use nexus_p2p.Storage.Manifests.{manifest}
use nexus_p2p.Node.{Node, require_sender_paired, in_store, in_env}
use nexus_p2p.Node.Server.{
  stream_with, allowed_hashes, serve_chunk, handle_chunk_request, handle_message, answer_error,
  handle_request,
}
use nexus_p2p.Node.Client.Files.{resume_files}
use nexus_p2p.Node.Client.Resume.{AnswersFirst}
use nexus_p2p.Node.Client.Resume.Ends.{resume_files-ends}

-- the hash of the first chunk
abbrev first_hash : Text → List WireChunk → Text
first_hash t [] = t
first_hash t (c ∷ cs) = c.hash

abbrev result_hash : Text → Result (List WireChunk) → Text
result_hash t (ok chunks) = first_hash t chunks
result_hash t (err e) = t

abbrev chunks_of : Result WireMessage → List WireChunk
chunks_of (ok (WireMessage.chunk_result id chunks)) = chunks
chunks_of _ = []

module _ (x : External) (sender : PublicIdentity) where
  serve_chunk-hash :
      (p : Peer) (s m : Text) (allowed : List Text) (hash : Text) (n : Node) {chunk : WireChunk}
      → (serve_chunk x sender p s m allowed hash n).0 ≡ ok chunk
      → chunk.hash ≡ hash
  unfolding serve_chunk
  serve_chunk-hash p s m allowed hash n h = elim (Bool-cases (contains allowed hash)) [
    | inr c ↦ absurd (ground (arith, c))
    | inl c ↦ elim (Result-cases (in_store (get_blob x hash) n).0) [
      | inr (e, b) ↦ absurd (ground (arith, c, b))
      | inl (blob, b) ↦
          let n1 = (in_store (get_blob x hash) n).1 in
          elim (Result-cases (in_env (encrypt_chunk x n1.keys p.identity s m hash blob) n1).0) [
            | inr (e, q) ↦ absurd (ground (arith, c, b, q))
            | inl (sealed, q) ↦ ground (arith, c, b, q)
          ]
    ]
  ]

  traverse-first :
      (p : Peer) (s m : Text) (allowed : List Text) (hash : Text) (hashes : List Text) (n : Node)
      {chunks : List WireChunk} (t : Text)
      → (traverse (serve_chunk x sender p s m allowed) (hash ∷ hashes) n).0 ≡ ok chunks
      → first_hash t chunks ≡ hash
  traverse-first p s m allowed hash hashes n t h =
      let f = serve_chunk x sender p s m allowed in
      let (y, first, rest, end) =
        >>=-eq-ok (f hash) (λ y. traverse f hashes >>= λ ys. pure (y ∷ ys)) n h in
      let (ys, others, last, end') =
        >>=-eq-ok (traverse f hashes) (λ ys. pure (y ∷ ys)) (f hash n).1 rest in
      sym (ap (result_hash t) last) ∙ serve_chunk-hash p s m allowed hash n first

  -- the chunks of an answer to a request for chunks
  chunk_request-first :
      (id hash : Text) (hashes : List Text) (n : Node) {body : WireMessage} (t : Text)
      → (handle_chunk_request x sender id (hash ∷ hashes) n).0 ≡ ok body
      → first_hash t (chunks_of (ok body)) ≡ hash
  unfolding handle_chunk_request
  chunk_request-first id hash hashes n t h =
      let (known, r, h1, end1) = >>=-eq-ok (require_sender_paired x sender) _ n h in
      let n1 = (require_sender_paired x sender n).1 in
      let (found, f, h2, end2) = >>=-eq-ok (in_store (manifest x id)) _ n1 h1 in
      let n2 = (in_store (manifest x id) n1).1 in
      let unknown : Error = fail (codes "unknown manifest") in
      let (m, s, h3, end3) = >>=-eq-ok (some_or unknown found) _ n2 h2 in
      let n3 = (some_or unknown found n2).1 in
      let served = serve_chunk x sender known (stream_with sender n3) id (allowed_hashes m) in
      let (chunks, c, h4, end4) = >>=-eq-ok (traverse served (take 16 (hash ∷ hashes))) _ n3 h3 in
      sym (ap (λ (r : Result WireMessage). first_hash t (chunks_of r)) h4)
      ∙ traverse-first known (stream_with sender n3) id (allowed_hashes m) hash (take 15 hashes) n3
          t c

answered :
    (r : Result WireMessage × Node) {other : Text} {chunk : WireChunk} {chunks : List WireChunk}
    → (answer_error r).0 ≡ ok (WireMessage.chunk_result other (chunk ∷ chunks))
    → r.0 ≡ ok (WireMessage.chunk_result other (chunk ∷ chunks))
answered (ok body, n) h = h
answered (err (fail message), n) h = absurd (ground (arith, h))
answered (err panic, n) h = absurd cc

module _ (x : External) where
  handle_request-first :
      (asked answer : WireEnvelope) (id other hash : Text) (hashes : List Text) (chunk : WireChunk)
      (chunks : List WireChunk) (n : Node)
      → asked.body ≡ WireMessage.chunk_request id (hash ∷ hashes)
      → (handle_request x asked n).0 ≡ ok answer
      → answer.body ≡ WireMessage.chunk_result other (chunk ∷ chunks)
      → chunk.hash ≡ hash
  unfolding handle_request handle_message
  handle_request-first asked answer id other hash hashes chunk chunks n body h given =
      let version : Exec Node (Unit {0}) =
        ensure (asked.version == protocol_version) (fail (codes "unsupported protocol version")) in
      let (u, v, h1, end1) = >>=-eq-ok version _ n h in
      let n1 = (version n).1 in
      let (w, s, h2, end2) = >>=-eq-ok (lift (validate_public_identity x asked.sender)) _ n1 h1 in
      let answer_to : Exec Node WireMessage =
        λ m. answer_error (handle_message x asked.sender asked.body m) in
      let (reply, a, h3, end3) = >>=-eq-ok answer_to _ n1 h2 in
      let same : reply ≡ WireMessage.chunk_result other (chunk ∷ chunks) =
        ground (arith, h3, given) in
      let handled = answered (handle_message x asked.sender asked.body n1) (a ∙ ap ok same) in
      chunk_request-first x asked.sender id hash hashes n1 hash (
        subst
          (λ (b : WireMessage).
            (handle_message x asked.sender b n1).0
            ≡ ok (WireMessage.chunk_result other (chunk ∷ chunks)))
          body handled)

  -- the transport to nodes of the program
  abbrev pub to_nodes :
      (ℕ → PeerEndpoint → Node) → ℕ → PeerEndpoint → WireEnvelope → Result WireEnvelope
  to_nodes nodes k endpoint asked = (handle_request x asked (nodes k endpoint)).0

  to_nodes-AnswersFirst : (nodes : ℕ → PeerEndpoint → Node) → AnswersFirst (to_nodes nodes)
  to_nodes-AnswersFirst nodes k endpoint asked answer id other hash hashes chunk chunks b r g =
      handle_request-first asked answer id other hash hashes chunk chunks (nodes k endpoint) b r g

  -- Where nodes of this program answer, whatever they hold at each request, resume_files has
  -- ended, with its files or with an error, on fuel above the number of rows of chunks in the
  -- store.
  pub resume_files-to_nodes :
      (nodes : ℕ → PeerEndpoint → Node) (fuel : ℕ) (p : Peer) (n : Node)
      → length n.store.chunk_rows < fuel
      → (resume_files x (to_nodes nodes) fuel p n).0 ≢ ok false
  resume_files-to_nodes nodes fuel p n l =
      resume_files-ends x (to_nodes nodes) (to_nodes-AnswersFirst nodes) fuel p n l
