-- ===== src/Mesh/Replay/History.antt =====
-- The window against the list of all the counters that it has accepted.
use hart_link.Common.{
  ℕ, zero, suc, ◌+◌, ◌-◌, ◌^◌, ◌≤◌, ◌<◌, bit_and, bit_or, ◌≡◌, ◌≢◌, refl, sym, ap, subst, ◌∙◌, inl,
  inr, arith, Bool, true, false, not, ◌&&◌, List, [], ◌∷◌, any, ltb, leb, ◌==◌, ==_self,
  if◌then◌else◌, Bool-cases, Result, ok, err,
}
use hart_link.Common.Bits.{tbit, tbit-bit_or, tbit-two_pow_self, tbit-two_pow_ne, tbit-le-one}
use hart_link.Mesh.Replay.Bitmap.{lt-cases, tbit_one, shift_lowest, shift_low, shift_high, masked}
use hart_link.Mesh.Replay.{
  ReplayWindow, SecurityError, replayed, too_old, new_window, shift_seen, accept_within, accept,
}

-- The counter is in the list.
abbrev pub accepted : ℕ → List ℕ → Bool
accepted c l = any (λ x. x == c) l

abbrev pub as_bit : Bool → ℕ
as_bit true = 1
as_bit false = 0

-- The window of an accepting history: `highest` is its greatest counter, and the bitmap tells for
-- each of the last 64 counters whether it was accepted.
pub record Remembers (w : ReplayWindow) (l : List ℕ) : Type 0 where
  pub fresh : w.initialized ≡ false → l ≡ []
  pub top : w.initialized ≡ true → accepted w.highest l ≡ true
  pub bound : (c : ℕ) → accepted c l ≡ true → c ≤ w.highest
  pub window :
      w.initialized ≡ true
      → (age : ℕ) → age < 64
      → age ≤ w.highest
      → tbit w.seen age ≡ as_bit (accepted (w.highest - age) l)

pub new_window-Remembers : Remembers new_window []
new_window-Remembers = record {
  fresh = λ h. refl;
  top = λ h. absurd (cc);
  bound = λ c h. absurd (cc);
  window = λ h age a b. absurd (cc);
}

if_result :
    (b : Bool) (c : ℕ) (u v : ReplayWindow)
    → (if◌then◌else◌ {A = Result SecurityError (Unit {0}) × ReplayWindow} b
        (err (replayed c), u)
        (ok tt, v)).0
      ≡ (if b then err (replayed c) else ok tt)
if_result true c u v = refl
if_result false c u v = refl

-- The history after a counter: one that is refused leaves it.
abbrev pub recorded : Result SecurityError (Unit {0}) → ℕ → List ℕ → List ℕ
recorded (ok _) c l = c ∷ l
recorded (err _) c l = l

-- What a history decides about a counter: one that was accepted is a replay, if the window still
-- shows it, and one that lies 64 or more below the greatest is too old.
pub verdict : ReplayWindow → List ℕ → ℕ → Result SecurityError (Unit {0})
verdict w l c =
    if w.initialized && leb (c + 64) w.highest
    then err (too_old c)
    else if accepted c l
    then err (replayed c)
    else ok tt

as_bit_test : (b : Bool) → (as_bit b == 1) ≡ b
as_bit_test true = refl
as_bit_test false = refl

module _ (w : ReplayWindow) (l : List ℕ) (r : Remembers w l) where
  -- Inside the window, the masked bit is the history's answer.
  shown :
      w.initialized ≡ true
      → (c : ℕ) → c ≤ w.highest
      → w.highest - c < 64
      → not (bit_and w.seen (2 ^ (w.highest - c)) == 0) ≡ accepted c l
  shown i c h n =
      let same : w.highest - (w.highest - c) ≡ c = omega arith in
      masked w.seen (w.highest - c)
      ∙ ap (λ (t : ℕ). t == 1) (r.window i (w.highest - c) n (omega arith))
      ∙ as_bit_test (accepted (w.highest - (w.highest - c)) l)
      ∙ ap (λ (t : ℕ). accepted t l) same

  unseen_above : (c : ℕ) → w.highest < c → accepted c l ≡ false
  unseen_above c h = elim (Bool-cases (accepted c l)) [
    | inl e ↦ absurd (omega (arith, r.bound c e))
    | inr e ↦ e
  ]

  -- For a window that remembers a history of accepted counters, `accept` answers as that history decides:
  -- too old, a replay, or accepted.
  pub accept-verdict : (c : ℕ) → (accept w c).0 ≡ verdict w l c
  unfolding accept verdict
  accept-verdict c = elim (Bool-cases w.initialized) [
    | inr new ↦ rw (new, r.fresh new)
    | inl old ↦ elim (lt-cases w.highest c) [
      | inl above ↦
          let test : ltb w.highest c ≡ true = ground arith in
          let young : leb (c + 64) w.highest ≡ false = ground arith in
          rw (old, test, young, unseen_above c above)
      | inr within ↦
          let test : ltb w.highest c ≡ false = ground arith in
          elim (lt-cases (w.highest - c) 64) [
            | inl recent ↦
                let young : leb (c + 64) w.highest ≡ false = ground arith in
                let young' : leb 64 (w.highest - c) ≡ false = ground arith in
                rw (old, test, young, young', shown old c within recent)
                  (if_result (accepted c l) c _ _)
            | inr late ↦
                let aged : leb (c + 64) w.highest ≡ true = ground arith in
                let aged' : leb 64 (w.highest - c) ≡ true = ground arith in
                rw (old, test, aged, aged')
          ]
    ]
  ]

  -- The window above the old one.
  shifted_window :
      w.initialized ≡ true
      → (c : ℕ) → w.highest < c
      → (age : ℕ) → age < 64
      → age ≤ c
      → tbit (shift_seen w.seen (c - w.highest)) age ≡ as_bit (accepted (c - age) (c ∷ l))
  unfolding shift_seen
  shifted_window i c h zero n a =
      let same : c - 0 ≡ c = omega arith in
      rw (same, ==_self c) (shift_lowest w.seen (c - w.highest))
  shifted_window i c h (suc age) n a =
      let other : (c == c - suc age) ≡ false = ground arith in
      elim (lt-cases (suc age) (c - w.highest)) [
        | inl below ↦
            rw (other, unseen_above (c - suc age) (omega arith))
              (shift_low w.seen (c - w.highest) age below n)
        | inr kept ↦
            let same : w.highest - (suc age - (c - w.highest)) ≡ c - suc age = omega arith in
            rw other (
              shift_high w.seen (c - w.highest) age kept n
              ∙ r.window i (suc age - (c - w.highest)) (omega arith) (omega arith)
              ∙ ap (λ (t : ℕ). as_bit (accepted t l)) same)
      ]

  within_window :
      w.initialized ≡ true
      → (c : ℕ) → c ≤ w.highest
      → w.highest - c < 64
      → (age : ℕ) → age < 64
      → age ≤ w.highest
      → tbit (bit_or w.seen (2 ^ (w.highest - c))) age ≡ as_bit (accepted (w.highest - age) (c ∷ l))
  within_window i c h n age k a = elim (Bool-cases (c == w.highest - age)) [
    | inl here ↦
        let same : w.highest - c ≡ age = ground arith in
        rw (here, tbit-bit_or w.seen (2 ^ (w.highest - c)) age, same)
          (omega (arith, tbit-two_pow_self age, tbit-le-one w.seen age))
    | inr other ↦
        let ne : w.highest - c ≢ age = λ e. ground arith in
        rw (other, tbit-bit_or w.seen (2 ^ (w.highest - c)) age)
          (omega (arith, tbit-two_pow_ne (w.highest - c) age ne, r.window i age k a))
  ]

  accepted_new : (c x : ℕ) → l ≡ [] → accepted x (c ∷ l) ≡ true → x ≡ c
  accepted_new c x e h = ground (arith, ap (accepted x) e)

  first_window :
      (c : ℕ) → l ≡ [] → (age : ℕ) → age ≤ c → tbit 1 age ≡ as_bit (accepted (c - age) (c ∷ l))
  first_window c e zero a =
      let same : c - 0 ≡ c = omega arith in rw (same, ==_self c) (tbit-two_pow_self 0)
  first_window c e (suc age) a =
      let other : (c == c - suc age) ≡ false = ground arith in rw (other, e) (tbit_one age)

  first-Remembers :
      (c : ℕ) → l ≡ [] → Remembers (record w { highest = c; seen = 1; initialized = true }) (c ∷ l)
  first-Remembers c e = record {
    fresh = λ h. absurd (cc);
    top = λ h. rw (==_self c);
    bound = λ x h. omega (arith, accepted_new c x e h);
    window = λ h age n a. first_window c e age a;
  }

  above-Remembers :
      (c : ℕ)
      → w.initialized ≡ true
      → w.highest < c
      → Remembers (record w { seen = shift_seen w.seen (c - w.highest); highest = c }) (c ∷ l)
  above-Remembers c i h = record {
    fresh = λ e. absurd (cc);
    top = λ e. rw (==_self c);
    bound = λ x e. ground (arith, r.bound x);
    window = λ e age n a. shifted_window i c h age n a;
  }

  within-Remembers :
      (c : ℕ)
      → w.initialized ≡ true
      → c ≤ w.highest
      → w.highest - c < 64
      → Remembers (record w { seen = bit_or w.seen (2 ^ (w.highest - c)) }) (c ∷ l)
  within-Remembers c i h n = record {
    fresh = λ e. absurd (cc);
    top = λ e. ground (arith, r.top i);
    bound = λ x e. ground (arith, r.bound x);
    window = λ e age k a. within_window i c h n age k a;
  }

  abbrev Recorded : ℕ → Result SecurityError (Unit {0}) × ReplayWindow → Type 0
  Recorded c o = Remembers o.1 (recorded o.0 c l)

  within-Recorded :
      (c : ℕ)
      → w.initialized ≡ true
      → c ≤ w.highest
      → Recorded c (accept_within w c (w.highest - c))
  unfolding accept_within
  within-Recorded c i h = elim (Bool-cases (leb 64 (w.highest - c))) [
    | inl old ↦ rw old r
    | inr recent ↦ elim (Bool-cases (not (bit_and w.seen (2 ^ (w.highest - c)) == 0))) [
      | inl again ↦ rw (recent, again) r
      | inr new ↦ rw (recent, new) (within-Remembers c i h (ground arith))
    ]
  ]

  -- Every call of `accept` keeps the window true to the history.
  pub accept-Remembers : (c : ℕ) → Recorded c (accept w c)
  unfolding accept
  accept-Remembers c = elim (Bool-cases w.initialized) [
    | inr new ↦ rw new (first-Remembers c (r.fresh new))
    | inl old ↦ elim (lt-cases w.highest c) [
      | inl above ↦
          let test : ltb w.highest c ≡ true = ground arith in
          let moved : accept w c
              ≡ (ok tt, record w { seen = shift_seen w.seen (c - w.highest); highest = c }) =
            rw (old, test) in
          subst (Recorded c) (sym moved) (above-Remembers c old above)
      | inr within ↦
          let test : ltb w.highest c ≡ false = ground arith in
          let judged : accept w c ≡ accept_within w c (w.highest - c) = rw (old, test) in
          subst (Recorded c) (sym judged) (within-Recorded c old within)
    ]
  ]

-- The counters accepted out of a list of requests, the last first.
pub admitted : ReplayWindow → List ℕ → List ℕ → List ℕ
admitted w l [] = l
admitted w l (c ∷ cs) = admitted (accept w c).1 (recorded (accept w c).0 c l) cs

abbrev pub Distinct : List ℕ → Type 0
Distinct [] = Unit
Distinct (c ∷ l) = (accepted c l ≡ false) × Distinct l

pub ok_unseen :
    (w : ReplayWindow) (l : List ℕ) (c : ℕ) → verdict w l c ≡ ok tt → accepted c l ≡ false
unfolding verdict
ok_unseen w l c e = ground arith

recorded-Distinct :
    (o : Result SecurityError (Unit {0})) (c : ℕ) (l : List ℕ)
    → (o ≡ ok tt → accepted c l ≡ false)
    → Distinct l
    → Distinct (recorded o c l)
recorded-Distinct (ok u) c l h k = (h refl, k)
recorded-Distinct (err e) c l h k = k

admitted-Distinct_from :
    (cs : List ℕ) (w : ReplayWindow) (l : List ℕ)
    → Remembers w l
    → Distinct l
    → Distinct (admitted w l cs)
unfolding admitted
admitted-Distinct_from [] w l r k = k
admitted-Distinct_from (c ∷ cs) w l r k =
    admitted-Distinct_from cs (accept w c).1 (recorded (accept w c).0 c l)
      (accept-Remembers w l r c)
      (recorded-Distinct (accept w c).0 c l
        (λ e. ok_unseen w l c (sym (accept-verdict w l r c) ∙ e)) k)

-- Whatever counters are offered to a new window, none is accepted twice.
pub admitted-Distinct : (cs : List ℕ) → Distinct (admitted new_window [] cs)
admitted-Distinct cs = admitted-Distinct_from cs new_window [] new_window-Remembers tt
