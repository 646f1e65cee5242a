-- ===== src/Node/Client/Resume.antt =====
-- What is missing before and after the turns of `resume_files` of core/nexus-core/src/node.rs.
pub mod Rows
pub mod Ends
pub mod Nodes
use mathlib.Core.Path.{subst}
use nexus_p2p.Base.{
  ℕ, zero, suc, ◌+◌, ◌≤◌, ◌<◌, ◌≡◌, ◌≢◌, refl, sym, ap, ◌∙◌, inl, inr, ◌⊎◌, Bool, true, false, not,
  Option, none, some, List, [], ◌∷◌, arith, All, Bool-cases, Option-cases, ◌==◌, nat_eq, list_eq,
  length, take, if◌then◌else◌,
}
use nexus_p2p.Base.Text.{Text}
use nexus_p2p.Base.Result.{Error, Result, ok, err, Result-cases}
use nexus_p2p.Base.Exec.{Exec, for_each, ◌>>=◌, ◌>>◌}
use nexus_p2p.External.{External}
use nexus_p2p.Model.{PeerEndpoint, Peer, FileManifest}
use nexus_p2p.Identity.{validate_public_identity}
use nexus_p2p.Protocol.{WireChunk, WireMessage, WireEnvelope}
use nexus_p2p.Crypto.{decrypt_chunk}
use nexus_p2p.Storage.{Store, ChunkRow}
use nexus_p2p.Base.Exec.Success.{>>=-eq-ok, ensure-eq-ok, unit-eq}
use nexus_p2p.Storage.Blobs.{mark_rows, put_blob}
use nexus_p2p.Storage.Manifests.{missing_rows, missing_chunks}
use nexus_p2p.Storage.Manifests.Missing.{
  missing_count, misses, missing_chunks-misses, length-mark_rows, length-mark_rows_missing,
  chunk_rows-put_blob,
}
use nexus_p2p.Node.{Node, NodeEvent, in_store, emit, node_identity}
use nexus_p2p.Node.Client.{request, send, refuse_error, stream_of}
use nexus_p2p.Node.Client.Answers.{IsAnswer, request-eq-ok}
use nexus_p2p.Node.Client.Files.{
  receive_chunk, received_chunks, take_chunks, fetch_chunks, fetch_all, finish_file, resume_all,
  resume_files,
}

-- An answer with chunks starts with the chunk that was asked for first.
abbrev pub AnswersFirst : (ℕ → PeerEndpoint → WireEnvelope → Result WireEnvelope) → Type 0
AnswersFirst transport =
    (k : ℕ) (endpoint : PeerEndpoint) (asked answer : WireEnvelope) (id other hash : Text)
    (hashes : List Text) (chunk : WireChunk) (chunks : List WireChunk)
    → asked.body ≡ WireMessage.chunk_request id (hash ∷ hashes)
    → transport k endpoint asked ≡ ok answer
    → answer.body ≡ WireMessage.chunk_result other (chunk ∷ chunks)
    → chunk.hash ≡ hash

module _ (x : External) (transport : ℕ → PeerEndpoint → WireEnvelope → Result WireEnvelope) where
  -- A chunk that was received is missing no more.
  pub receive_chunk_rows :
      (p : Peer) (s id : Text) (chunk : WireChunk) (n : Node) {u : Unit {0}}
      → (receive_chunk x transport p s id chunk n).0 ≡ ok u
      → (receive_chunk x transport p s id chunk n).1.store.chunk_rows
        ≡ mark_rows chunk.hash n.store.chunk_rows
  unfolding receive_chunk
  receive_chunk_rows p s id chunk n {u} h =
      elim (Result-cases
        (decrypt_chunk x n.keys p.identity s id chunk.hash chunk.nonce chunk.bytes)) [
          | inr (e, d) ↦ absurd (ground (arith, d))
          | inl (clear, d) ↦
              let put = put_blob x chunk.hash clear n.store in
              elim (Result-cases put.0) [
                | inr (e, q) ↦ absurd (ground (arith, d, q))
                | inl (w, q) ↦ rw d (
                    chunk_rows-put_blob x chunk.hash clear n.store put.1
                      (ap (λ (r : Result (Unit {0})). (r, put.1)) (q ∙ ap ok (unit-eq w))))
              ]
        ]

  -- what a `mark_rows` does to the count
  fewer :
      (id hash : Text) (rows others : List ChunkRow)
      → others ≡ mark_rows hash rows
      → length (missing_rows id others) ≤ length (missing_rows id rows)
  fewer id hash rows others e = rw e (length-mark_rows id hash rows)

  -- The loop over the chunks of an answer adds nothing to what is missing.
  receive_chunks-le :
      (p : Peer) (s id m : Text) (chunks : List WireChunk) (n : Node) {u : Unit {0}}
      → (for_each (receive_chunk x transport p s id) chunks n).0 ≡ ok u
      → missing_count m (for_each (receive_chunk x transport p s id) chunks n).1.store
        ≤ missing_count m n.store
  receive_chunks-le p s id m [] n h = omega arith
  receive_chunks-le p s id m (chunk ∷ chunks) n h =
      let (u, first, rest, end) =
        >>=-eq-ok (receive_chunk x transport p s id chunk)
          (λ _. for_each (receive_chunk x transport p s id) chunks) n h in
      let here =
        fewer m chunk.hash n.store.chunk_rows _ (receive_chunk_rows p s id chunk n first) in
      let later =
        receive_chunks-le p s id m chunks (receive_chunk x transport p s id chunk n).1 rest in
      rw end (omega (arith, here, later))

  receive_chunks-lt :
      (p : Peer) (s id m : Text) (chunk : WireChunk) (chunks : List WireChunk) (n : Node)
      {u : Unit {0}}
      → misses m chunk.hash n.store.chunk_rows ≡ true
      → (for_each (receive_chunk x transport p s id) (chunk ∷ chunks) n).0 ≡ ok u
      → suc
          (missing_count m (for_each (receive_chunk x transport p s id) (chunk ∷ chunks) n).1.store)
        ≤ missing_count m n.store
  receive_chunks-lt p s id m chunk chunks n missing h =
      let (u, first, rest, end) =
        >>=-eq-ok (receive_chunk x transport p s id chunk)
          (λ _. for_each (receive_chunk x transport p s id) chunks) n h in
      let here = length-mark_rows_missing m chunk.hash n.store.chunk_rows missing in
      let rows = receive_chunk_rows p s id chunk n first in
      let later =
        receive_chunks-le p s id m chunks (receive_chunk x transport p s id chunk n).1 rest in
      rw (end) (go later rows here)
    where
      go :
          {a : ℕ} {rows others : List ChunkRow}
          → a ≤ length (missing_rows m rows)
          → rows ≡ others
          → suc (length (missing_rows m others)) ≤ length (missing_rows m n.store.chunk_rows)
          → suc a ≤ length (missing_rows m n.store.chunk_rows)
      go l e k = omega (arith, l, k, ap (λ r. length (missing_rows m r)) e)

  -- An answer that is taken leaves fewer chunks missing, where it starts with a missing one.
  take_chunks-lt :
      (p : Peer) (m : FileManifest) (id : Text) (chunks : List WireChunk) (n : Node) {u : Unit {0}}
      → ((chunk : WireChunk) (rest : List WireChunk)
          → chunks ≡ chunk ∷ rest
          → misses m.id chunk.hash n.store.chunk_rows ≡ true)
      → (take_chunks x transport p m (id, chunks) n).0 ≡ ok u
      → suc (missing_count m.id (take_chunks x transport p m (id, chunks) n).1.store)
        ≤ missing_count m.id n.store
  unfolding take_chunks missing_chunks emit
  take_chunks-lt p m id [] n missing h = elim (Bool-cases (id == m.id)) [
    | inr e ↦ absurd (ground (arith, e))
    | inl e ↦ absurd (ground (arith, e))
  ]
  take_chunks-lt p m id (chunk ∷ chunks) n missing h = elim (Bool-cases (id == m.id)) [
    | inr e ↦ absurd (ground (arith, e))
    | inl e ↦
        let stream = stream_of p.identity.device_id n in
        let loop = for_each (receive_chunk x transport p stream id) (chunk ∷ chunks) n in
        elim (Result-cases loop.0) [
          | inr (er, l) ↦ absurd (ground (arith, e, l))
          | inl (w, l) ↦
              let less =
                receive_chunks-lt p stream id m.id chunk chunks n (missing chunk chunks refl) l in
              ground (arith, e, l, less)
        ]
  ]

  pub received_chunks-eq-ok :
      (body : WireMessage) (n : Node) {answer : Text × List WireChunk}
      → (received_chunks x transport body n).0 ≡ ok answer
      → (body ≡ WireMessage.chunk_result answer.0 answer.1)
        × ((received_chunks x transport body n).1 ≡ n)
  unfolding received_chunks
  received_chunks-eq-ok WireMessage.hello n h = absurd (ground arith)
  received_chunks-eq-ok (WireMessage.pair_request nonce) n h = absurd (ground arith)
  received_chunks-eq-ok (WireMessage.pair_response accepted) n h = absurd (ground arith)
  received_chunks-eq-ok (WireMessage.push_event e) n h = absurd (ground arith)
  received_chunks-eq-ok (WireMessage.ack id) n h = absurd (ground arith)
  received_chunks-eq-ok (WireMessage.sync_exchange s k e) n h = absurd (ground arith)
  received_chunks-eq-ok (WireMessage.sync_result e) n h = absurd (ground arith)
  received_chunks-eq-ok (WireMessage.chunk_request m hs) n h = absurd (ground arith)
  received_chunks-eq-ok (WireMessage.push_chunks m c) n h = absurd (ground arith)
  received_chunks-eq-ok (WireMessage.error message) n h = absurd (ground arith)
  received_chunks-eq-ok (WireMessage.chunk_result m c) n {answer} h = (ground (arith, h), refl)

  -- what does not change is not missed less
  misses_carried :
      (id hash other : Text) (s t : Store)
      → t ≡ s
      → other ≡ hash
      → misses id hash s.chunk_rows ≡ true
      → misses id other t.chunk_rows ≡ true
  misses_carried id hash other s t e o h = rw (e, o) h

  lt_carried :
      (id : Text) (s : Store) (a b c : Node)
      → c ≡ b
      → a.store ≡ s
      → suc (missing_count id b.store) ≤ missing_count id a.store
      → suc (missing_count id c.store) ≤ missing_count id s
  lt_carried id s a b c e f h =
      subst (λ (t : Store). suc (missing_count id c.store) ≤ missing_count id t) f
        (subst (λ (d : Node). suc (missing_count id d.store) ≤ missing_count id a.store) (sym e) h)

  -- What is asked for first is missing, and is what comes first.
  module _ (honest : AnswersFirst transport) where
    pub fetch_chunks-lt :
        (p : Peer) (m : FileManifest) (hash : Text) (hashes : List Text) (n : Node) {u : Unit {0}}
        → misses m.id hash n.store.chunk_rows ≡ true
        → (fetch_chunks x transport p m (hash ∷ hashes) n).0 ≡ ok u
        → suc (missing_count m.id (fetch_chunks x transport p m (hash ∷ hashes) n).1.store)
          ≤ missing_count m.id n.store
    unfolding fetch_chunks
    fetch_chunks-lt p m hash hashes n missing h =
        let ask = WireMessage.chunk_request m.id (take 16 (hash ∷ hashes)) in
        let (response, asked, rest, end) =
          >>=-eq-ok (request x transport p ask)
            (λ response. received_chunks x transport response.body >>= take_chunks x transport p m)
            n h in
        let n1 = (request x transport p ask n).1 in
        let (same, good, (endpoint, reply)) = request-eq-ok x transport p ask n asked in
        let (answer, got, taken, ended) =
          >>=-eq-ok (received_chunks x transport response.body) (take_chunks x transport p m) n1
            rest in
        let (chunks, state) = received_chunks-eq-ok response.body n1 got in
        let n2 = (received_chunks x transport response.body n1).1 in
        let stored : n2.store ≡ n.store = ap (λ (a : Node). a.store) state ∙ same in
        let less =
          take_chunks-lt p m answer.0 answer.1 n2
            (λ chunk others e.
              misses_carried m.id hash chunk.hash n.store n2.store stored
                (honest n.env.calls endpoint _ response m.id answer.0 hash (take 15 hashes) chunk
                  others refl reply (chunks ∙ ap (WireMessage.chunk_result answer.0) e))
                missing)
            taken in
        lt_carried m.id n.store n2 _ _ (end ∙ ended) stored less
