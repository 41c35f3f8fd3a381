-- ===== src/Mysql/Packet/Reading.antt =====
-- mysql/packetio.go: every call of `ReadPacket`, split by the bytes that have arrived.
use cm.Common.{
  ℕ, zero, suc, ◌-◌, ◌≤◌, ◌<◌, ◌≡◌, ◌≢◌, refl, ap, sym, subst, ◌∙◌, List, [], ◌∷◌, ◌++◌, All,
  length, take, drop, ltb, ◌==◌, true, false, Bool-cases, inl, inr, length-drop, length-take,
  length-append, take-append-drop, IsByte, eof, invalid_length, invalid_sequence, ok, err, arith,
}
use mathlib.Core.List.{append_assoc}
use native.Mathlib.Nat.{mod-eq_of_lt}
use cm.Mysql.Packet.{PacketIo, Outcome, append_rest, next, read_one}
use cm.Mysql.Packet.Streams.{announced, IsMax, blank, length-blank, wire-last, wire-starts}
use cm.Mysql.Packet.Received.{Received, Answered, Received-behind}

All-drop : (n : ℕ) (xs : List ℕ) → All IsByte xs → All IsByte (drop n xs)
All-drop zero xs h = h
All-drop (suc n) [] h = h
All-drop (suc n) (x ∷ xs) h = All-drop n xs h.1

not_empty : (xs ys : List ℕ) → 0 < length xs → xs ++ ys ≢ []
not_empty [] ys h e = absurd (omega (arith, h))
not_empty (x ∷ xs) ys h e = cc e

-- A call for the rest of the payload that says what it should, wherever less is left to read.
abbrev pub Goes : ℕ → PacketIo → (PacketIo → Outcome (List ℕ)) → Type 0
Goes max p k =
    (q : PacketIo)
    → length q.rb < length p.rb
    → All IsByte q.rb
    → IsByte q.sequence
    → Answered max q (k q)

module _ (max : ℕ) (m : IsMax max) (k : PacketIo → Outcome (List ℕ)) where
  -- Fewer than four bytes are the beginning of some header.
  pub read_one-short :
      (p : PacketIo) (rest : List ℕ) (a b c : ℕ)
      → length p.rb < 4
      → IsByte a
      → IsByte b
      → IsByte c
      → 0 < length rest
      → p.rb ++ rest ≡ a ∷ b ∷ c ∷ p.sequence ∷ []
      → Answered max p (read_one max k p)
  unfolding read_one
  read_one-short p rest a b c h ha hb hc some_rest e =
      let n = announced a b c in
      let (tail, begins) = wire-starts max m p.sequence a b c (blank n) ha hb hc (length-blank n) in
      (
        err eof,
        record p { rb = [] },
        ground arith,
        Received.cut (blank n) (rest ++ (blank n ++ tail)) refl
            (not_empty rest (blank n ++ tail) some_rest)
            (sym (append_assoc p.rb rest (blank n ++ tail))
              ∙ ap (λ w. w ++ (blank n ++ tail)) e
              ∙ sym begins),
      )

  module _ (p : PacketIo) (a b c d : ℕ) (body : List ℕ) (ha : IsByte a) (hb : IsByte b)
      (hc : IsByte c) (e : p.rb ≡ a ∷ b ∷ c ∷ d ∷ body) where
    read_one-no_payload : announced a b c ≡ 0 → Answered max p (read_one max k p)
    unfolding read_one
    read_one-no_payload n =
        let e_a : a ≡ 0 = omega arith in
        let e_b : b ≡ 0 = omega arith in
        let e_c : c ≡ 0 = omega arith in
        (
          err invalid_length,
          record p { rb = body },
          rw e (ground arith),
          Received.no_payload d (
            [],
            [],
            mod-eq_of_lt (omega arith),
            wire-last max m p.sequence 0 0 0 [] (omega arith) (omega arith) (omega arith) refl
                (omega arith),
            e ∙ (λ i. e_a i ∷ e_b i ∷ e_c i ∷ d ∷ body),
          ),
        )

    read_one-stray :
        announced a b c ≢ 0 → (d == p.sequence) ≡ false → Answered max p (read_one max k p)
    unfolding read_one
    read_one-stray n other = (
      err invalid_sequence,
      record p { rb = body },
      rw e (ground arith),
      Received.stray a b c d n (λ z. ground (arith, z, other))
          (
            [],
            [],
            mod-eq_of_lt (omega arith),
            wire-last max m p.sequence 0 0 0 [] (omega arith) (omega arith) (omega arith) refl
                (omega arith),
            e,
          ),
    )

    read_one-cut :
        announced a b c ≢ 0
        → (d == p.sequence) ≡ true
        → length body < announced a b c
        → Answered max p (read_one max k p)
    unfolding read_one
    read_one-cut n same short =
        let more = announced a b c - length body in
        let payload = body ++ blank more in
        let len : length payload ≡ announced a b c =
          omega (arith, length-append body (blank more), length-blank more) in
        let (tail, begins) = wire-starts max m p.sequence a b c payload ha hb hc len in
        let d_same : d ≡ p.sequence = ground arith in
        let joined = sym (append_assoc body (blank more) tail) in
        (
          err eof,
          record p { rb = []; sequence = next p.sequence },
          rw e (ground arith),
          Received.cut payload (blank more ++ tail) refl
              (not_empty (blank more) tail (omega (arith, length-blank more)))
              (ap (λ w. w ++ (blank more ++ tail)) e
                ∙ (λ i. a ∷ b ∷ c ∷ d_same i ∷ joined i)
                ∙ sym begins),
        )

    read_one-whole :
        announced a b c ≢ 0
        → (d == p.sequence) ≡ true
        → announced a b c ≤ length body
        → announced a b c < max
        → Answered max p (read_one max k p)
    unfolding read_one
    read_one-whole n same enough small =
        let part = take (announced a b c) body in
        let len : length part ≡ announced a b c =
          omega (arith, length-take (announced a b c) body) in
        let d_same : d ≡ p.sequence = ground arith in
        let joined = sym (take-append-drop (announced a b c) body) in
        (
          ok part,
          record p { rb = drop (announced a b c) body; sequence = next p.sequence },
          rw e (ground arith),
          Received.whole (λ z. n (sym len ∙ sym (mod-eq_of_lt (omega arith)) ∙ z))
              (e
                ∙ (λ i. a ∷ b ∷ c ∷ d_same i ∷ joined i)
                ∙ ap (λ w. w ++ drop (announced a b c) body)
                    (sym (wire-last max m p.sequence a b c part ha hb hc len (omega arith)))),
        )

    read_one-full :
        (d == p.sequence) ≡ true
        → max ≤ length body
        → announced a b c ≡ max
        → All IsByte body
        → Goes max p k
        → Answered max p (read_one max k p)
    unfolding read_one
    read_one-full same enough full bytes goes =
        let n = announced a b c in
        let part = take n body in
        let after = record p { rb = drop n body; sequence = next p.sequence } in
        let len : length part ≡ max = omega (arith, length-take n body) in
        let less : length (drop n body) < length p.rb =
          omega (arith, ap length e, length-drop n body) in
        let step : read_one max k p ≡ append_rest part (k after) = rw e (ground arith) in
        let (r, q, answer, received) = goes after less (All-drop n body bytes) (omega arith) in
        let low : a ≡ 255 = omega arith in
        let mid : b ≡ 255 = omega arith in
        let high : c ≡ 255 = omega arith in
        let d_same : d ≡ p.sequence = ground arith in
        let joined = sym (take-append-drop n body) in
        subst (Answered max p) (sym (step ∙ ap (append_rest part) answer)) (
          Received-behind max m p q part (drop n body) r len
            (e ∙ (λ i. low i ∷ mid i ∷ high i ∷ d_same i ∷ joined i)) received)

    pub read_one-header : All IsByte body → Goes max p k → Answered max p (read_one max k p)
    read_one-header bytes goes = elim (Bool-cases (announced a b c == 0)) [
      | inl z ↦ read_one-no_payload (ground arith)
      | inr z ↦
          let some_bytes : announced a b c ≢ 0 = λ x. ground (arith, x, z) in
          elim (Bool-cases (d == p.sequence)) [
            | inr f ↦ read_one-stray some_bytes f
            | inl t ↦ elim (Bool-cases (ltb (length body) (announced a b c))) [
              | inl short ↦ read_one-cut some_bytes t (ground arith)
              | inr long ↦ elim (Bool-cases (ltb (announced a b c) max)) [
                | inl small ↦ read_one-whole some_bytes t (ground arith) (ground arith)
                | inr big ↦
                    let at_least : max ≤ announced a b c = ground arith in
                    let enough : announced a b c ≤ length body = ground arith in
                    read_one-full t (omega arith) (omega arith) bytes goes
              ]
            ]
          ]
    ]
