-- ===== src/Node/Sound/Names.antt =====
-- `set_display_name` of core/nexus-core/src/node.rs on a sound node.
use nexus_p2p.Base.{
  ◌≡◌, ◌≢◌, refl, inl, inr, some, [], arith, Bool-cases, ◌==◌, ==-true, list_eq, nat_eq, leb,
  length,
}
use nexus_p2p.Base.Text.{Text, trim}
use nexus_p2p.Base.Text.Blank.{trim-trim_ne}
use nexus_p2p.Base.Result.{ok, Result-cases}
use nexus_p2p.Base.Exec.Keeps.{Keeps}
use nexus_p2p.Crypto.{Identity}
use nexus_p2p.External.{External, IsLawful}
use nexus_p2p.Model.{PublicIdentity}
use nexus_p2p.Identity.{validate_public_identity, device_id_of}
use nexus_p2p.Identity.Local.{Machine, load}
use nexus_p2p.Storage.Identities.{set_public, update_identity_public}
use nexus_p2p.Node.{node_identity}
use nexus_p2p.Node.Kept.{View, view, shown, IsKept}
use nexus_p2p.Node.Client.{set_display_name}
use nexus_p2p.Node.Client.Names.{loaded_keys}
use nexus_p2p.Node.Sound.{Sound, sound}

module _ (x : External) where
  -- A valid identity stays valid under any name that is not blank.
  pub validate_renamed :
      (i : PublicIdentity) (name : Text)
      → validate_public_identity x i ≡ ok tt
      → trim name ≢ []
      → validate_public_identity x (record i { display_name = name }) ≡ ok tt
  unfolding validate_public_identity
  validate_renamed i name h n = elim (Result-cases (x.verifying_key i.signing_public_key)) [
    | inr (er, k) ↦ absurd (ground (arith, k))
    | inl (u, k) ↦ elim (Bool-cases (i.device_id == device_id_of x i.signing_public_key)) [
      | inr d ↦ absurd (ground (arith, k, d))
      | inl d ↦ elim (Bool-cases (trim name == [])) [
        | inl e ↦ absurd (n (==-true (trim name) [] e))
        | inr e ↦ ground (arith, k, d, e)
      ]
    ]
  ]

module _ (x : External) (law : IsLawful x) (d : Identity) (name json : Text) where
  -- The view after a change of the name.
  abbrev renamed_view : View → Text → View
  renamed_view v secret_json = record v {
    saved = some (json, secret_json);
    display_name = trim name;
  }

  renamed_view-Sound :
      (v : View) (public_json secret_json : Text)
      → Sound x d v
      → ((m : Machine)
          → load x public_json secret_json m ≡ (ok (record v.keys { public = shown v }), m))
      → trim name ≢ []
      → x.identity_to_json (record (shown v) { display_name = trim name }) ≡ ok json
      → Sound x d (renamed_view v secret_json)
  renamed_view-Sound v public_json secret_json h loads n j = record {
    log = h.log;
    distinct = h.distinct;
    own = validate_renamed x (shown v) (trim name) h.own (trim-trim_ne name n);
    keys = h.keys;
    device = h.device;
    peers = h.peers;
    saved = (
      json,
      secret_json,
      refl,
      λ m.
          loaded_keys x public_json secret_json m m (record v.keys { public = shown v }) (loads m)
            (record (shown v) { display_name = trim name }) json (law.identity_json _ j),
    );
  }

module _ (x : External) (law : IsLawful x) (d : Identity) where
  pub set_display_name-IsSound :
      (name : Text) → Keeps (IsKept x (sound x law d)) (set_display_name x name)
  unfolding set_display_name update_identity_public set_public node_identity IsKept
  set_display_name-IsSound name = record {
    at = λ n h.
        let (public_json, secret_json, stored, loads) = h.saved in
        elim (Bool-cases (trim name == [])) [
          | inl e ↦ rw e h
          | inr e ↦ elim (Bool-cases (leb (length (trim name)) 40)) [
            | inr l ↦ rw (e, l) h
            | inl l ↦
                elim (Result-cases
                  (x.identity_to_json (record (node_identity n) { display_name = trim name }))) [
                    | inr (er, j) ↦ rw (e, l, j) h
                    | inl (json, j) ↦
                        rw (e, l, j, stored)
                          (renamed_view-Sound x law d name json (view n) public_json secret_json h
                            loads (λ q. absurd (ground (arith, e, q))) j)
                  ]
          ]
        ];
  }
