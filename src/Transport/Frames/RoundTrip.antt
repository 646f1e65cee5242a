-- ===== src/Transport/Frames/RoundTrip.antt =====
-- A frame is read back as the message that was written, whatever follows it; and no frame makes a
-- reader take more than its bound.
use mathlib.Core.List.{append_assoc}
use nexus_p2p.Base.{
  ℕ, ◌+◌, ◌*◌, ◌/◌, ◌%◌, ◌^◌, ◌≤◌, ◌<◌, ◌≡◌, refl, ap, ◌∙◌, inl, inr, [], ◌∷◌, ◌++◌, arith, leb,
  leb→le, leb→lt, le→leb, Bool-cases, length, take, drop, length-append, length-drop,
}
use nexus_p2p.Base.Text.{Bytes}
use nexus_p2p.Base.Result.{ok, Result-cases}
use nexus_p2p.External.{External, IsLawful}
use nexus_p2p.Protocol.{WireEnvelope}
use nexus_p2p.Transport.Frames.{
  max_frame, u32_bytes, encode, decode, read_u32, read_exact, read_frame, write_frame,
}

take_append : (a b : Bytes) → (take (length a) (a ++ b) ≡ a) × (drop (length a) (a ++ b) ≡ b)
take_append [] b = (refl, refl)
take_append (c ∷ a) b = let (p, q) = take_append a b in (ap (◌∷◌ c) p, q)

-- the four bytes read back
u32_value :
    (n : ℕ)
    → n < 2 ^ 32
    → n / 16777216 % 256 * 16777216 + n / 65536 % 256 * 65536 + n / 256 % 256 * 256 + n % 256 ≡ n
u32_value n h = omega arith

module _ (x : External) where
  pub read_u32-u32_bytes :
      (n : ℕ) (rest : Bytes) → n < 2 ^ 32 → read_u32 x (u32_bytes n ++ rest) ≡ (ok n, rest)
  unfolding read_u32 u32_bytes
  read_u32-u32_bytes n rest h = ap (λ (k : ℕ). (ok k, rest)) (u32_value n h)

  pub read_exact-append : (a rest : Bytes) → read_exact x (length a) (a ++ rest) ≡ (ok a, rest)
  unfolding read_exact
  read_exact-append a rest =
      let (p, q) = take_append a rest in
      rw (le→leb (length a) (length (a ++ rest)) (omega (arith, length-append a rest)), p, q) refl

  -- What `write_frame` has written.
  written :
      (m : WireEnvelope) (out out' : Bytes)
      → write_frame x m out ≡ (ok tt, out')
      → (bytes : Bytes) × (x.envelope_to_cbor m ≡ ok bytes)
        × (length bytes ≤ max_frame)
        × (out' ≡ out ++ u32_bytes (length bytes % 2 ^ 32) ++ bytes)
  unfolding write_frame encode
  written m out out' h = elim (Result-cases (x.envelope_to_cbor m)) [
    | inr (e, c) ↦ absurd (ground (arith, c))
    | inl (bytes, c) ↦ elim (Bool-cases (leb (length bytes) max_frame)) [
      | inr l ↦ absurd (ground (arith, c, l))
      | inl l ↦ (bytes, c, leb→le _ _ l, ground (arith, c, l))
    ]
  ]

  pub framed :
      (bytes rest : Bytes) (m : WireEnvelope)
      → length bytes ≤ max_frame
      → x.envelope_from_cbor bytes ≡ ok m
      → read_frame x (u32_bytes (length bytes) ++ (bytes ++ rest)) ≡ (ok m, rest)
  unfolding read_frame decode
  framed bytes rest m small d =
      rw
        (
          read_u32-u32_bytes (length bytes) (bytes ++ rest) (omega arith),
          le→leb (length bytes) max_frame small,
          read_exact-append bytes rest,
          d,
        )
        refl

  length-u32_bytes : (n : ℕ) → length (u32_bytes n) ≡ 4
  unfolding u32_bytes
  length-u32_bytes n = refl

  -- Under the laws of the crates, what a write_frame that succeeds appends to a stream is one
  -- frame of at most 4 + max_frame bytes, from which read_frame reads the message back and leaves
  -- all that follows.
  pub read_frame-write_frame :
      (law : IsLawful x) (m : WireEnvelope) (out out' : Bytes)
      → write_frame x m out ≡ (ok tt, out')
      → (frame : Bytes) × (out' ≡ out ++ frame)
        × (length frame ≤ 4 + max_frame)
        × ((rest : Bytes) → read_frame x (frame ++ rest) ≡ (ok m, rest))
  read_frame-write_frame law m out out' h =
      let (bytes, c, small, e) = written m out out' h in
      let n : length bytes % 2 ^ 32 ≡ length bytes = omega (arith, small) in
      let head = u32_bytes (length bytes) in
      (
        head ++ bytes,
        e ∙ ap (λ (k : ℕ). out ++ u32_bytes k ++ bytes) n ∙ append_assoc out head bytes,
        omega (arith, length-append head bytes, length-u32_bytes (length bytes), small),
        λ rest.
            ap (read_frame x) (append_assoc head bytes rest)
            ∙ framed bytes rest m small (law.envelope_cbor m c),
      )

  read_u32_takes : (s : Bytes) → length s ≤ length (read_u32 x s).1 + 4
  unfolding read_u32
  read_u32_takes [] = omega arith
  read_u32_takes (a ∷ []) = omega arith
  read_u32_takes (a ∷ b ∷ []) = omega arith
  read_u32_takes (a ∷ b ∷ c ∷ []) = omega arith
  read_u32_takes (a ∷ b ∷ c ∷ d ∷ rest) = omega arith

  read_exact_takes : (n : ℕ) (s : Bytes) → length s ≤ length (read_exact x n s).1 + n
  unfolding read_exact
  read_exact_takes n s = elim (Bool-cases (leb n (length s))) [
    | inl l ↦ rw l (omega (arith, length-drop n s))
    | inr l ↦ rw l (omega (arith, leb→lt n (length s) l))
  ]

  -- Whatever a stream holds, read_frame takes no more than 4 + max_frame bytes of it, whether it
  -- returns or fails.
  pub read_frame-le : (s : Bytes) → length s ≤ length (read_frame x s).1 + (4 + max_frame)
  unfolding read_frame
  read_frame-le s =
      let head = read_u32_takes s in
      let rest = (read_u32 x s).1 in
      elim (Result-cases (read_u32 x s).0) [
        | inr (e, r) ↦ rw r (omega (arith, head))
        | inl (n, r) ↦ elim (Bool-cases (leb n max_frame)) [
          | inr l ↦ rw (r, l) (omega (arith, head))
          | inl l ↦
              let body = read_exact_takes n rest in
              let small = leb→le n max_frame l in
              elim (Result-cases (read_exact x n rest).0) [
                | inr (e, t) ↦ rw (r, l, t) (omega (arith, head, body, small))
                | inl (bytes, t) ↦ rw (r, l, t) (omega (arith, head, body, small))
              ]
        ]
      ]
