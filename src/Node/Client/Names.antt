-- ===== src/Node/Client/Names.antt =====
-- A change of the display name lasts.
use nexus_p2p.Base.{
  ◌≡◌, ◌∙◌, inl, inr, some, [], arith, Bool-cases, ◌==◌, list_eq, nat_eq, leb, length,
}
use nexus_p2p.Base.Text.{Text, trim}
use nexus_p2p.Base.Result.{ok, Result-cases}
use nexus_p2p.External.{External, IsLawful}
use nexus_p2p.Model.{PublicIdentity}
use nexus_p2p.Crypto.{Identity}
use nexus_p2p.Identity.Local.{Machine, load, load_or_create}
use nexus_p2p.Storage.Identities.{load_identity, set_public, update_identity_public}
use nexus_p2p.Node.{Node, node_identity}
use nexus_p2p.Node.Client.{set_display_name}

module _ (x : External) (name : Text) (n n' : Node) (i : PublicIdentity) where
  -- What a change that succeeds has done.
  renamed :
      (public_json secret_json : Text)
      → n.store.local_identity ≡ some (public_json, secret_json)
      → set_display_name x name n ≡ (ok i, n')
      → (json : Text) × (i ≡ record (node_identity n) { display_name = trim name })
        × (x.identity_to_json i ≡ ok json)
        × (n'.store.local_identity ≡ some (json, secret_json))
        × (node_identity n' ≡ i)
  unfolding set_display_name update_identity_public set_public node_identity
  renamed public_json secret_json stored h = elim (Bool-cases (trim name == [])) [
    | inl e ↦ absurd (ground (arith, e))
    | inr e ↦ elim (Bool-cases (leb (length (trim name)) 40)) [
      | inr l ↦ absurd (ground (arith, e, l))
      | inl l ↦
          elim (Result-cases
            (x.identity_to_json (record (node_identity n) { display_name = trim name }))) [
              | inr (er, j) ↦ absurd (ground (arith, e, l, j))
              | inl (json, j) ↦ (
                json,
                ground (arith, e, l, j),
                ground (arith, e, l, j),
                ground (arith, e, l, j, stored),
                ground (arith, e, l, j, stored),
              )
            ]
    ]
  ]

-- What is saved under another name holds the same secrets.
pub loaded_keys :
    (x : External) (public_json secret_json : Text) (m m' : Machine) (keys : Identity)
    → load x public_json secret_json m ≡ (ok keys, m)
    → (i : PublicIdentity) (json : Text) → x.identity_from_json json ≡ ok i
    → load x json secret_json m' ≡ (ok (record keys { public = i }), m')
unfolding load
loaded_keys x public_json secret_json m m' keys h i json e =
    elim (Result-cases (x.identity_from_json public_json)) [
      | inr (er, a) ↦ absurd (ground (arith, a))
      | inl (public, a) ↦ elim (Result-cases (x.text_from_json secret_json)) [
        | inr (er, b) ↦ absurd (ground (arith, a, b))
        | inl (encoded, b) ↦ elim (Result-cases (x.base64_decode encoded)) [
          | inr (er, c) ↦ absurd (ground (arith, a, b, c))
          | inl (bytes, c) ↦ elim (Result-cases (x.secret_from_bincode bytes)) [
            | inr (er, d) ↦ absurd (ground (arith, a, b, c, d))
            | inl ((signing, exchange), d) ↦ ground (arith, a, b, c, d, e)
          ]
        ]
      ]
    ]

pub load_or_create_saved :
    (x : External) (name public_json secret_json : Text) (m : Machine)
    → m.store.local_identity ≡ some (public_json, secret_json)
    → load_or_create x name m ≡ load x public_json secret_json m
unfolding load_or_create load_identity
load_or_create_saved x name public_json secret_json m saved = simp saved

module _ (x : External) (law : IsLawful x) (n n' : Node) (i : PublicIdentity) where
  -- Under the laws of the crates, after a change of the name that succeeds, on a node whose stored
  -- identity loads as its keys, the node shows the identity that was returned, and the next start
  -- loads that identity with the same secrets, whatever name it is given.
  pub load_or_create-set_display_name :
      (name other public_json secret_json : Text)
      → n.store.local_identity ≡ some (public_json, secret_json)
      → load x public_json secret_json n.machine ≡ (ok n.keys, n.machine)
      → set_display_name x name n ≡ (ok i, n')
      → (node_identity n' ≡ i)
        × (load_or_create x other n'.machine ≡ (ok (record n.keys { public = i }), n'.machine))
  load_or_create-set_display_name name other public_json secret_json stored loads h =
      let (json, e, j, saved, shown) = renamed x name n n' i public_json secret_json stored h in
      (
        shown,
        load_or_create_saved x other json secret_json n'.machine saved
            ∙ loaded_keys x public_json secret_json n.machine n'.machine n.keys loads i json
                (law.identity_json i j),
      )
