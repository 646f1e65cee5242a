-- ===== src/Node/Client/Resume/Rows.antt =====
-- The number of rows of chunks under `resume_files` of core/nexus-core/src/node.rs.
use nexus_p2p.Base.{
  ℕ, zero, suc, ◌≡◌, refl, sym, ap, ◌∙◌, inl, inr, Bool, true, List, [], ◌∷◌, arith, Bool-cases,
  ◌==◌, nat_eq, list_eq, length, take,
}
use nexus_p2p.Base.Text.{Text}
use nexus_p2p.Base.Result.{Result, ok, Result-cases}
use nexus_p2p.Base.Exec.{for_each, ◌>>=◌, ◌>>◌}
use nexus_p2p.External.{External}
use nexus_p2p.Model.{PeerEndpoint, Peer, FileManifest}
use nexus_p2p.Protocol.{WireChunk, WireMessage, WireEnvelope}
use nexus_p2p.Storage.{Store}
use nexus_p2p.Base.Exec.Success.{>>=-eq-ok}
use nexus_p2p.Storage.Manifests.{missing_chunks, refresh_manifest_complete}
use nexus_p2p.Storage.Manifests.Missing.{missing_chunks-misses, chunk_rows_length}
use nexus_p2p.Node.{Node, emit}
use nexus_p2p.Node.Client.{request, stream_of}
use nexus_p2p.Node.Client.Answers.{request-eq-ok}
use nexus_p2p.Node.Client.Files.{
  receive_chunk, received_chunks, take_chunks, fetch_chunks, fetch_all, finish_file,
}
use nexus_p2p.Node.Client.Resume.{receive_chunk_rows, received_chunks-eq-ok}

abbrev pub rows : Node → ℕ
rows n = length n.store.chunk_rows

module _ (x : External) (transport : ℕ → PeerEndpoint → WireEnvelope → Result WireEnvelope) where
  rows-receive_chunks :
      (p : Peer) (s id : Text) (chunks : List WireChunk) (n : Node) {u : Unit {0}}
      → (for_each (receive_chunk x transport p s id) chunks n).0 ≡ ok u
      → rows (for_each (receive_chunk x transport p s id) chunks n).1 ≡ rows n
  rows-receive_chunks p s id [] n h = refl
  rows-receive_chunks p s id (chunk ∷ chunks) n h =
      let (u, first, rest, end) =
        >>=-eq-ok (receive_chunk x transport p s id chunk)
          (λ _. for_each (receive_chunk x transport p s id) chunks) n h in
      ap rows end
      ∙ rows-receive_chunks p s id chunks (receive_chunk x transport p s id chunk n).1 rest
      ∙ ap length (receive_chunk_rows x transport p s id chunk n first)
      ∙ chunk_rows_length chunk.hash n.store.chunk_rows

  rows-take_chunks :
      (p : Peer) (m : FileManifest) (id : Text) (chunks : List WireChunk) (n : Node) {u : Unit {0}}
      → (take_chunks x transport p m (id, chunks) n).0 ≡ ok u
      → rows (take_chunks x transport p m (id, chunks) n).1 ≡ rows n
  unfolding take_chunks missing_chunks emit
  rows-take_chunks p m id [] n h = elim (Bool-cases (id == m.id)) [
    | inr e ↦ absurd (ground (arith, e))
    | inl e ↦ absurd (ground (arith, e))
  ]
  rows-take_chunks p m id (chunk ∷ chunks) n h = elim (Bool-cases (id == m.id)) [
    | inr e ↦ absurd (ground (arith, e))
    | inl e ↦
        let stream = stream_of p.identity.device_id n in
        elim (Result-cases
          (for_each (receive_chunk x transport p stream id) (chunk ∷ chunks) n).0) [
            | inr (er, l) ↦ absurd (ground (arith, e, l))
            | inl (w, l) ↦
                let same = rows-receive_chunks p stream id (chunk ∷ chunks) n l in
                ground (arith, e, l, same)
          ]
  ]

  rows-fetch_chunks :
      (p : Peer) (m : FileManifest) (hashes : List Text) (n : Node) {u : Unit {0}}
      → (fetch_chunks x transport p m hashes n).0 ≡ ok u
      → rows (fetch_chunks x transport p m hashes n).1 ≡ rows n
  unfolding fetch_chunks
  rows-fetch_chunks p m hashes n h =
      let ask = WireMessage.chunk_request m.id (take 16 hashes) in
      let (response, asked, rest, end) =
        >>=-eq-ok (request x transport p ask)
          (λ response. received_chunks x transport response.body >>= take_chunks x transport p m) n
          h in
      let n1 = (request x transport p ask n).1 in
      let (same, good, reply) = request-eq-ok x transport p ask n asked in
      let (answer, got, taken, ended) =
        >>=-eq-ok (received_chunks x transport response.body) (take_chunks x transport p m) n1
          rest in
      let (chunks, state) = received_chunks-eq-ok x transport response.body n1 got in
      ap rows (end ∙ ended)
      ∙ rows-take_chunks p m answer.0 answer.1 _ taken
      ∙ ap rows state
      ∙ ap (λ (s : Store). length s.chunk_rows) same

  -- one turn of the loop
  pub fetch_all-none :
      (fuel : ℕ) (p : Peer) (m : FileManifest) (n : Node)
      → missing_chunks m.id n.store ≡ (ok [], n.store)
      → fetch_all x transport (suc fuel) p m n ≡ (ok true, n)
  unfolding fetch_all nat_eq
  fetch_all-none fuel p m n e = rw e refl

  pub fetch_all-some :
      (fuel : ℕ) (p : Peer) (m : FileManifest) (hash : Text) (hashes : List Text) (n : Node)
      → missing_chunks m.id n.store ≡ (ok (hash ∷ hashes), n.store)
      → fetch_all x transport (suc fuel) p m n
        ≡ (fetch_chunks x transport p m (hash ∷ hashes) >> fetch_all x transport fuel p m) n
  unfolding fetch_all
  fetch_all-some fuel p m hash hashes n e = ground (arith, e)

  pub rows-fetch_all :
      (fuel : ℕ) (p : Peer) (m : FileManifest) (n : Node) {b : Bool}
      → (fetch_all x transport fuel p m n).0 ≡ ok b
      → rows (fetch_all x transport fuel p m n).1 ≡ rows n
  unfolding fetch_all
  rows-fetch_all zero p m n h = refl
  rows-fetch_all (suc fuel) p m n {b} h =
      let (hashes, listed, all) = missing_chunks-misses m.id n.store in
      go hashes listed (λ n' h'. rows-fetch_all fuel p m n' h')
    where
      go :
          (hashes : List Text)
          → missing_chunks m.id n.store ≡ (ok hashes, n.store)
          → ((n' : Node)
              → (fetch_all x transport fuel p m n').0 ≡ ok b
              → rows (fetch_all x transport fuel p m n').1 ≡ rows n')
          → rows (fetch_all x transport (suc fuel) p m n).1 ≡ rows n
      go [] listed again =
          ap (λ (r : Result Bool × Node). rows r.1) (fetch_all-none fuel p m n listed)
      go (hash ∷ hashes) listed again =
          let turn = fetch_all-some fuel p m hash hashes n listed in
          let (u, fetched, rest, end) =
            >>=-eq-ok (fetch_chunks x transport p m (hash ∷ hashes))
              (λ _. fetch_all x transport fuel p m) n
              (sym (ap (λ (r : Result Bool × Node). r.0) turn) ∙ h) in
          ap (λ (r : Result Bool × Node). rows r.1) turn
          ∙ ap rows end
          ∙ again _ rest
          ∙ rows-fetch_chunks p m (hash ∷ hashes) n fetched

  pub rows-finish_file :
      (m : FileManifest) (n : Node) → rows (finish_file x transport m n).1 ≡ rows n
  unfolding finish_file refresh_manifest_complete emit
  rows-finish_file m n = ground arith
