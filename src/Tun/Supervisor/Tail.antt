-- ===== src/Tun/Supervisor/Tail.antt =====
-- `tailBuffer` of engine/internal/tun/supervisor.go against its description.
use hypomux_arch.Prelude.{
  ℕ, zero, suc, ◌+◌, ◌-◌, ◌≤◌, ◌≡◌, refl, sym, ap, ◌∙◌, false, List, [], ◌∷◌, ◌++◌, arith, ltb,
  ◌==◌, length, length-append, drop, inl, inr, Bool-cases,
}
use hypomux_arch.Golang.Strings.{Text}
use hypomux_arch.Tun.Supervisor.{tail_write}

-- The last `limit` bytes.
abbrev pub last : ℕ → Text → Text
last limit s = drop (length s - limit) s

-- The buffer after the writes, from an empty one.
abbrev pub written : ℕ → Text → List Text → Text
written limit buffer [] = buffer
written limit buffer (p ∷ ps) = written limit (tail_write limit buffer p) ps

abbrev pub joined : List Text → Text
joined [] = []
joined (p ∷ ps) = p ++ joined ps

drop-append_left : (n : ℕ) (xs ys : Text) → n ≤ length xs → drop n xs ++ ys ≡ drop n (xs ++ ys)
drop-append_left zero xs ys h = refl
drop-append_left (suc n) [] ys h = elim h [ ]
drop-append_left (suc n) (x ∷ xs) ys h = drop-append_left n xs ys (omega arith)

drop_nil : (n : ℕ) → ◌≡◌ {A = Text} (drop n []) []
drop_nil zero = refl
drop_nil (suc n) = refl

drop-drop : (n m : ℕ) (xs : Text) → drop n (drop m xs) ≡ drop (m + n) xs
drop-drop n zero xs = ap (λ k. drop k xs) (omega arith)
drop-drop n (suc m) [] = drop_nil n ∙ sym (drop_nil (suc m + n))
drop-drop n (suc m) (x ∷ xs) = drop-drop n m xs ∙ ap (λ k. drop k (x ∷ xs)) (shift m n)
  where
    shift : (m n : ℕ) → suc (m + n) ≡ suc m + n
    shift m n = omega arith

length-drop : (n : ℕ) (xs : Text) → length (drop n xs) ≡ length xs - n
length-drop zero xs = omega arith
length-drop (suc n) [] = omega arith
length-drop (suc n) (x ∷ xs) = omega (arith, length-drop n xs)

append_assoc : (xs ys zs : Text) → (xs ++ ys) ++ zs ≡ xs ++ (ys ++ zs)
append_assoc [] ys zs = refl
append_assoc (x ∷ xs) ys zs = ap (λ l. x ∷ l) (append_assoc xs ys zs)

append_nil : (xs : Text) → xs ++ [] ≡ xs
append_nil [] = refl
append_nil (x ∷ xs) = ap (λ l. x ∷ l) (append_nil xs)

tail_write-last :
    (limit : ℕ) (buffer payload : Text)
    → 1 ≤ limit
    → tail_write limit buffer payload ≡ last limit (buffer ++ payload)
unfolding tail_write
tail_write-last limit buffer payload h =
    let some_room : (limit == 0) ≡ false = ground arith in
    elim (Bool-cases (ltb limit (length (buffer ++ payload)))) [
      | inl over ↦ rw (some_room, over)
      | inr fits ↦
          rw (some_room, fits)
            (ap (λ n. drop n (buffer ++ payload)) (none_over (length (buffer ++ payload)) fits))
    ]
  where
    none_over : (n : ℕ) → ltb limit n ≡ false → 0 ≡ n - limit
    none_over n e = ground arith

last-append :
    (limit : ℕ) (s payload : Text)
    → last limit (last limit s ++ payload) ≡ last limit (s ++ payload)
last-append limit s payload =
    let n = length s - limit in
    let joint : last limit s ++ payload ≡ drop n (s ++ payload) =
      drop-append_left n s payload (omega arith) in
    ap (last limit) joint
    ∙ drop-drop (length (drop n (s ++ payload)) - limit) n (s ++ payload)
    ∙ ap (λ k. drop k (s ++ payload))
        (omega (arith, length-drop n (s ++ payload), length-append s payload))

written-last :
    (limit : ℕ) (before : Text) (ps : List Text)
    → 1 ≤ limit
    → written limit (last limit before) ps ≡ last limit (before ++ joined ps)
written-last limit before [] h = ap (last limit) (sym (append_nil before))
written-last limit before (p ∷ ps) h =
    ap (λ b. written limit b ps)
      (tail_write-last limit (last limit before) p h ∙ last-append limit before p)
    ∙ written-last limit (before ++ p) ps h
    ∙ ap (last limit) (append_assoc before p (joined ps))

-- Whatever is written, in whatever pieces, the buffer holds the last bytes of all of it, up to its
-- limit, which is positive.
pub written_eq :
    (limit : ℕ) (ps : List Text) → 1 ≤ limit → written limit [] ps ≡ last limit (joined ps)
written_eq limit ps h =
    ap (λ b. written limit b ps) (sym (drop_nil (0 - limit))) ∙ written-last limit [] ps h
