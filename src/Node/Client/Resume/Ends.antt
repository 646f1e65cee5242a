-- ===== src/Node/Client/Resume/Ends.antt =====
-- `resume_files` of core/nexus-core/src/node.rs: the fuel of its loops.
use nexus_p2p.Base.{
  ℕ, zero, suc, ◌<◌, ◌≡◌, ◌≢◌, refl, sym, ap, ◌∙◌, Bool, true, false, List, [], ◌∷◌, arith, All,
  nat_eq, list_eq, length, if◌then◌else◌,
}
use nexus_p2p.Base.Text.{Text}
use nexus_p2p.Base.Result.{Result, ok}
use nexus_p2p.Base.Exec.{pure, lift, ◌>>◌}
use nexus_p2p.Base.Exec.Keeps.{Keeps-traverse, Keeps-lift}
use nexus_p2p.External.{External}
use nexus_p2p.Model.{DeviceId, PeerEndpoint, Peer, FileManifest}
use nexus_p2p.Protocol.{WireEnvelope}
use nexus_p2p.Storage.{Store}
use nexus_p2p.Base.Exec.Success.{>>=-eq-ok}
use nexus_p2p.Storage.Manifests.{missing_chunks, incomplete_manifests_for_peer}
use nexus_p2p.Storage.Manifests.Missing.{
  missing_count, misses, missing_chunks-misses, missing_rows-le,
}
use nexus_p2p.Node.{Node, in_store}
use nexus_p2p.Node.Client.Resume.Rows.{
  rows, fetch_all-none, fetch_all-some, rows-fetch_all, rows-finish_file,
}
use nexus_p2p.Node.Client.Files.{fetch_chunks, fetch_all, finish_file, resume_all, resume_files}
use nexus_p2p.Node.Client.Resume.{AnswersFirst, fetch_chunks-lt}

incomplete_manifests_state :
    (x : External) (peer : DeviceId) (s : Store) → (incomplete_manifests_for_peer x peer s).1 ≡ s
unfolding incomplete_manifests_for_peer
incomplete_manifests_state x peer s =
    (Keeps-traverse {P = λ t. t ≡ s} (λ json. lift (x.manifest_from_json json)) _
        (λ json. Keeps-lift (x.manifest_from_json json))).at
      s refl

module _ (x : External) (transport : ℕ → PeerEndpoint → WireEnvelope → Result WireEnvelope) where
  module _ (honest : AnswersFirst transport) where
    fetch_all-ends :
        (fuel : ℕ) (p : Peer) (m : FileManifest) (n : Node)
        → missing_count m.id n.store < fuel
        → (fetch_all x transport fuel p m n).0 ≢ ok false
    fetch_all-ends zero p m n l e = omega (arith, l)
    fetch_all-ends (suc fuel) p m n l h =
        let (hashes, listed, all) = missing_chunks-misses m.id n.store in
        go hashes listed all (λ n' l' h'. fetch_all-ends fuel p m n' l' h')
      where
        go :
            (hashes : List Text)
            → missing_chunks m.id n.store ≡ (ok hashes, n.store)
            → All (λ hash. misses m.id hash n.store.chunk_rows ≡ true) hashes
            → ((n' : Node)
                → missing_count m.id n'.store < fuel
                → (fetch_all x transport fuel p m n').0 ≢ ok false)
            → ⊥
        go [] listed all ends = absurd (cc (fetch_all-none x transport fuel p m n listed))
        go (hash ∷ hashes) listed all ends =
            let turn =
              sym (
                ap (λ (r : Result Bool × Node). r.0)
                  (fetch_all-some x transport fuel p m hash hashes n listed))
              ∙ h in
            let (u, fetched, rest, end) =
              >>=-eq-ok (fetch_chunks x transport p m (hash ∷ hashes))
                (λ _. fetch_all x transport fuel p m) n turn in
            let less = fetch_chunks-lt x transport honest p m hash hashes n all.0 fetched in
            ends (fetch_chunks x transport p m (hash ∷ hashes) n).1 (omega (arith, l, less)) rest

    resume_all-ends :
        (fuel : ℕ) (p : Peer) (ms : List FileManifest) (n : Node)
        → rows n < fuel
        → (resume_all x transport fuel p ms n).0 ≢ ok false
    unfolding resume_all
    resume_all-ends fuel p [] n l h = cc
    resume_all-ends fuel p (m ∷ ms) n l h =
        let few = missing_rows-le m.id n.store.chunk_rows in
        let (ended, fetched, rest, end) =
          >>=-eq-ok (fetch_all x transport fuel p m)
            (λ ended.
              if ended
              then finish_file x transport m >> resume_all x transport fuel p ms
              else pure false)
            n h in
        go ended fetched rest (fetch_all-ends fuel p m n (omega (arith, l, few)))
          (λ n' l'. resume_all-ends fuel p ms n' l')
      where
        go :
            (ended : Bool)
            → (fetch_all x transport fuel p m n).0 ≡ ok ended
            → (if◌then◌else◌ ended
                (finish_file x transport m >> resume_all x transport fuel p ms)
                (pure false)
                (fetch_all x transport fuel p m n).1).0
              ≡ ok false
            → (fetch_all x transport fuel p m n).0 ≢ ok false
            → ((n' : Node) → rows n' < fuel → (resume_all x transport fuel p ms n').0 ≢ ok false)
            → ⊥
        go false fetched rest never again = never fetched
        go true fetched rest never again =
            let n1 = (fetch_all x transport fuel p m n).1 in
            let (u, finished, later, end) =
              >>=-eq-ok (finish_file x transport m) (λ _. resume_all x transport fuel p ms) n1
                rest in
            let fetched_rows = rows-fetch_all x transport fuel p m n fetched in
            let finished_rows = rows-finish_file x transport m n1 in
            again (finish_file x transport m n1).1 (omega (arith, l, fetched_rows, finished_rows))
              later

    -- Where the other end, if it answers a request for chunks with chunks, puts the chunk that was
    -- asked for first before the others, resume_files has ended, with its files or with an error,
    -- on fuel above the number of rows of chunks in the store.
    pub resume_files-ends :
        (fuel : ℕ) (p : Peer) (n : Node)
        → length n.store.chunk_rows < fuel
        → (resume_files x transport fuel p n).0 ≢ ok false
    unfolding resume_files
    resume_files-ends fuel p n l h =
        let list = incomplete_manifests_for_peer x p.identity.device_id in
        let (ms, listed, rest, end) =
          >>=-eq-ok (in_store list) (resume_all x transport fuel p) n h in
        let same = incomplete_manifests_state x p.identity.device_id n.store in
        resume_all-ends fuel p ms (in_store list n).1 (rw same l) rest
