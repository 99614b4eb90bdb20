-- ===== src/Net/Commands/Texts.antt =====
-- net/net_thread.h: what is written into a command is what is read from it.
use sails.Prelude.{
  ℕ, zero, suc, ◌+◌, ◌-◌, ◌*◌, ◌/◌, ◌%◌, ◌^◌, ◌<◌, ◌≤◌, ◌≡◌, refl, sym, ap, ◌∙◌, true, some, List,
  [], ◌∷◌, ◌++◌, arith, ltb, length, Bool-cases, inl, inr, length-append, length-take, take_all,
}
use mathlib.Core.List.{append-nil, append_assoc}
use sails.Net.Commands.{
  same_text, digits, print_reason, is_digit, scan, scan_reason, ext_bytes, ext_of,
}

pub same_text_refl : (xs : List ℕ) → same_text xs xs ≡ true
same_text_refl [] = refl
same_text_refl (x ∷ xs) = ground (arith, same_text_refl xs)

scan-nil : (k acc : ℕ) → scan k acc [] ≡ acc
unfolding scan
scan-nil zero acc = refl
scan-nil (suc k) acc = refl

scan_digit :
    (k acc n : ℕ) (cs : List ℕ)
    → n < 10
    → scan (suc k) acc ((48 + n) ∷ cs) ≡ scan k (acc * 10 + n) cs
unfolding scan
scan_digit k acc n cs h =
    let d : is_digit (48 + n) ≡ true = ground arith in
    let m : 48 + n - 48 ≡ n = omega arith in rw (d, m, scan) refl

abbrev pow10 : ℕ → ℕ
pow10 zero = 1
pow10 (suc k) = 10 * pow10 k

-- Fewer digits are printed of a smaller number.
length-digits_small : (k m n : ℕ) → n < 10 * pow10 k → length (digits m n) ≤ suc k
unfolding digits
length-digits_small k zero n h = omega arith
length-digits_small zero (suc m) n h =
    let small : ltb n 10 ≡ true = ground arith in rw (small, digits) (omega arith)
length-digits_small (suc k) (suc m) n h = elim (Bool-cases (ltb n 10)) [
  | inl small ↦ rw (small, digits) (omega arith)
  | inr large ↦
      rw (large, digits)
        (omega (
          arith,
          length-append (digits m (n / 10)) ((48 + n % 10) ∷ []),
          length-digits_small k m (n / 10) (omega arith),
        ))
]

scan-digits :
    (k n j : ℕ) (cs : List ℕ)
    → n < pow10 k
    → scan (length (digits k n) + j) 0 (digits k n ++ cs) ≡ scan j n cs
unfolding digits
scan-digits zero n j cs h =
    let z : n ≡ 0 = omega arith in let e : 0 + j ≡ j = omega arith in rw (z, e, digits) refl
scan-digits (suc k) n j cs h = elim (Bool-cases (ltb n 10)) [
  | inl small ↦
      let o : 1 + j ≡ suc j = omega arith in
      let m : 0 * 10 + n ≡ n = omega arith in
      rw (small, digits, o) (scan_digit j 0 n cs (ground arith) ∙ ap (λ x. scan j x cs) m)
  | inr large ↦
      let l : length (digits k (n / 10) ++ (48 + n % 10) ∷ []) + j
          ≡ length (digits k (n / 10)) + suc j =
        omega (arith, length-append (digits k (n / 10)) ((48 + n % 10) ∷ [])) in
      rw (large, digits, l, append_assoc (digits k (n / 10)) ((48 + n % 10) ∷ []) cs)
        (scan-digits k (n / 10) (suc j) ((48 + n % 10) ∷ cs) (omega arith)
          ∙ scan_digit j (n / 10) (n % 10) cs (omega arith)
          ∙ ap (λ m. scan j m cs) (omega arith))
]

-- The reason of a closing comes back out of its text, below 10 ^ 9.
pub scan-print_reason : (reason : ℕ) → reason < 10 ^ 9 → scan_reason (print_reason reason) ≡ reason
unfolding scan_reason print_reason
scan-print_reason reason h =
    let xs = digits 10 reason in
    let short : length xs ≤ 9 = length-digits_small 8 10 reason h in
    let n : 10 ≡ length xs + (10 - length xs) = omega arith in
    ap (scan 10 0) (take_all 9 xs short ∙ sym (append-nil xs))
    ∙ ap (λ k. scan k 0 (xs ++ [])) n
    ∙ scan-digits 10 reason (10 - length xs) [] (omega arith)
    ∙ scan-nil (10 - length xs) reason

-- The data comes back out of its bytes, with anything behind them.
pub ext_of-bytes : (x : ℕ) (cs : List ℕ) → x < 2 ^ 64 → ext_of (ext_bytes x ++ cs) ≡ some x
unfolding ext_of ext_bytes
ext_of-bytes x cs h = ap some (omega arith)

-- Eight bytes are enough.
pub ext_of-whole : (cs ds : List ℕ) → 8 ≤ length cs → (x : ℕ) × (ext_of (cs ++ ds) ≡ some x)
unfolding ext_of
ext_of-whole (a ∷ b ∷ c ∷ d ∷ e ∷ f ∷ g ∷ h ∷ cs) ds le = (_, refl)
ext_of-whole [] ds le = absurd (omega arith)
ext_of-whole (a ∷ []) ds le = absurd (omega arith)
ext_of-whole (a ∷ b ∷ []) ds le = absurd (omega arith)
ext_of-whole (a ∷ b ∷ c ∷ []) ds le = absurd (omega arith)
ext_of-whole (a ∷ b ∷ c ∷ d ∷ []) ds le = absurd (omega arith)
ext_of-whole (a ∷ b ∷ c ∷ d ∷ e ∷ []) ds le = absurd (omega arith)
ext_of-whole (a ∷ b ∷ c ∷ d ∷ e ∷ f ∷ []) ds le = absurd (omega arith)
ext_of-whole (a ∷ b ∷ c ∷ d ∷ e ∷ f ∷ g ∷ []) ds le = absurd (omega arith)

pub length-print_reason : (reason : ℕ) → length (print_reason reason) ≤ 9
unfolding print_reason
length-print_reason reason = omega (arith, length-take 9 (digits 10 reason))

pub same_text-eq : (xs ys : List ℕ) → same_text xs ys ≡ true → xs ≡ ys
same_text-eq [] [] h = refl
same_text-eq [] (y ∷ ys) h = absurd (ground arith)
same_text-eq (x ∷ xs) [] h = absurd (ground arith)
same_text-eq (x ∷ xs) (y ∷ ys) h =
    let p : x ≡ y = ground arith in
    let q : same_text xs ys ≡ true = ground arith in rw (p, same_text-eq xs ys q) refl
