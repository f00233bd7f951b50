-- ===== src/Dns/Query/Answers.antt =====
-- Records of any type and class as a server may write them behind a question, and the loop of `parseResponse`
-- (engine/internal/dns/wire.go) over them.
use hypomux_arch.Prelude.{
  ℕ, suc, ◌+◌, ◌≤◌, ◌*◌, ◌%◌, ◌≡◌, refl, sym, ap, ◌∙◌, false, List, [], ◌∷◌, ◌++◌, some, arith, leb,
  ltb, length, length-append, get_elem?, drop, take, ◌/◌,
}
use hypomux_arch.Dns.Wire.{
  Bytes, ok, or_panic, byte_at, slice, uint16_at, uint32_at, skip_pointer, skip_labels, skip_name,
  ResourceRecord, WireAnswer, read_record, consider, read_answers,
}

-- A record for the name in the question: the two bytes of its type and of its class, the four of its
-- time to live, and its data.
pub record ServerRecord : Type 0 where
  pub type₁ : ℕ
  pub type₀ : ℕ
  pub class₁ : ℕ
  pub class₀ : ℕ
  pub t₃ : ℕ
  pub t₂ : ℕ
  pub t₁ : ℕ
  pub t₀ : ℕ
  pub payload : Bytes

abbrev pub lifetime : ServerRecord → ℕ
lifetime r = (r.t₃ * 256 + r.t₂) * 65536 + (r.t₁ * 256 + r.t₀)

-- A pointer to offset 12, where the question's name is, and the record.
abbrev pub record_bytes : ServerRecord → Bytes
record_bytes r =
    192
    ∷ 12
    ∷ r.type₁
    ∷ r.type₀
    ∷ r.class₁
    ∷ r.class₀
    ∷ r.t₃
    ∷ r.t₂
    ∷ r.t₁
    ∷ r.t₀
    ∷ (length r.payload / 256)
    ∷ (length r.payload % 256)
    ∷ r.payload

abbrev pub write_record : ServerRecord → Bytes → Bytes
write_record r back = record_bytes r ++ back

abbrev pub write_records : List ServerRecord → Bytes
write_records [] = []
write_records (r ∷ rs) = write_record r (write_records rs)

pub take-append : (xs ys : Bytes) → take (length xs) (xs ++ ys) ≡ xs
take-append [] ys = refl
take-append (x ∷ xs) ys = ap (λ zs. x ∷ zs) (take-append xs ys)

get_elem?-behind :
    (front xs : Bytes) (k : ℕ) → get_elem? (front ++ xs) (length front + k) ≡ get_elem? xs k
get_elem?-behind [] xs k = ap (get_elem? xs) (omega arith)
get_elem?-behind (y ∷ front) xs k =
    ap (get_elem? (y ∷ (front ++ xs))) (shift (length front) k) ∙ get_elem?-behind front xs k
  where
    shift : (n k : ℕ) → suc n + k ≡ suc (n + k)
    shift n k = omega arith

drop-behind : (front xs : Bytes) (k : ℕ) → drop (length front + k) (front ++ xs) ≡ drop k xs
drop-behind [] xs k = ap (λ n. drop n xs) (omega arith)
drop-behind (y ∷ front) xs k =
    ap (λ n. drop n (y ∷ (front ++ xs))) (shift (length front) k) ∙ drop-behind front xs k
  where
    shift : (n k : ℕ) → suc n + k ≡ suc (n + k)
    shift n k = omega arith

module _ (front xs : Bytes) where
  pub byte_at-behind :
      (i k b : ℕ) → i ≡ length front + k → get_elem? xs k ≡ some b → byte_at (front ++ xs) i ≡ ok b
  unfolding byte_at
  byte_at-behind i k b at_k found =
      ap or_panic (ap (get_elem? (front ++ xs)) at_k ∙ get_elem?-behind front xs k ∙ found)

  pub uint16_at-behind :
      (i k b c : ℕ)
      → i ≡ length front + k
      → get_elem? xs k ≡ some b
      → get_elem? xs (k + 1) ≡ some c
      → uint16_at (front ++ xs) i ≡ ok (b * 256 + c)
  unfolding uint16_at
  uint16_at-behind i k b c at_k first second_byte =
      rw
        (
          byte_at-behind i k b at_k first,
          byte_at-behind (i + 1) (k + 1) c (omega (arith, at_k)) second_byte,
        )
        refl

-- The name of such a record is its two-byte pointer.
skip_name-write_record :
    (front : Bytes) (r : ServerRecord) (back : Bytes)
    → 1 ≤ length front
    → skip_name (front ++ write_record r back) (length front) ≡ ok (length front + 2)
unfolding skip_name skip_labels skip_pointer
skip_name-write_record front r back some_front =
    let packet = front ++ write_record r back in
    let size = length-append front (write_record r back) in
    let long : leb (length packet) (length front) ≡ false = ground (arith, size) in
    let two : leb (length packet) (length front + 1) ≡ false = ground (arith, size) in
    let inside : leb (length packet) (192 % 64 * 256 + 12) ≡ false =
      ground (arith, size, some_front) in
    rw (long, byte_at-behind front (write_record r back) (length front) 0 192 (omega arith) refl)
      (rw (two, byte_at-behind front (write_record r back) (length front + 1) 1 12 refl refl)
        (rw inside refl))

abbrev pub read_as : ServerRecord → ResourceRecord
read_as r = record {
  answer_type = r.type₁ * 256 + r.type₀;
  class = r.class₁ * 256 + r.class₀;
  ttl_seconds = lifetime r;
  payload = r.payload;
}

read_record-write_record :
    (front : Bytes) (r : ServerRecord) (back : Bytes)
    → 1 ≤ length front
    → read_record (front ++ write_record r back) (length front)
      ≡ ok (read_as r, length front + (12 + length r.payload))
unfolding read_record uint32_at slice
read_record-write_record front r back some_front =
    let xs = write_record r back in
    let n = length front in
    let len = length r.payload in
    let size = length-append front xs in
    let size' = length-append r.payload back in
    let fixed : ltb (length (front ++ xs)) (n + 2 + 10) ≡ false = ground (arith, size, size') in
    let whole : ltb (length (front ++ xs)) (n + 2 + 10 + len) ≡ false =
      ground (arith, size, size') in
    let data_at : drop (n + 2 + 10) (front ++ xs) ≡ drop 12 xs =
      ap (λ i. drop i (front ++ xs)) (omega arith) ∙ drop-behind front xs 12 in
    let size_read : len / 256 * 256 + len % 256 ≡ len = omega arith in
    rw (skip_name-write_record front r back some_front) (
      rw (fixed, uint16_at-behind front xs (n + 2) 2 r.type₁ r.type₀ refl refl refl)
        (rw (uint16_at-behind front xs (n + 2 + 2) 4 r.class₁ r.class₀ (omega arith) refl refl) (
          rw
            (
              uint16_at-behind front xs (n + 2 + 4) 6 r.t₃ r.t₂ (omega arith) refl refl,
              uint16_at-behind front xs (n + 2 + 4 + 2) 8 r.t₁ r.t₀ (omega arith) refl refl,
            )
            (rw
              (uint16_at-behind front xs (n + 2 + 8) 10 (len / 256) (len % 256) (omega arith) refl
                refl)
              (rw size_read (
                rw (whole, data_at, take-append r.payload back)
                  (ap (λ m. ok (read_as r, m)) (omega arith))))))))

-- What the records leave as the best answer.
abbrev pub best_of : ℕ → List ServerRecord → WireAnswer → WireAnswer
best_of record_type [] best = best
best_of record_type (r ∷ rs) best = best_of record_type rs (consider record_type (read_as r) best)

pub append_assoc : (xs ys zs : Bytes) → (xs ++ ys) ++ zs ≡ xs ++ (ys ++ zs)
append_assoc [] ys zs = refl
append_assoc (x ∷ xs) ys zs = ap (λ l. x ∷ l) (append_assoc xs ys zs)

pub read_answers-write_records :
    (record_type : ℕ) (front : Bytes) (rs : List ServerRecord) (best : WireAnswer)
    → 1 ≤ length front
    → read_answers (length rs) (front ++ write_records rs) record_type (length front) best
      ≡ ok (best_of record_type rs best)
unfolding read_answers
read_answers-write_records record_type front [] best some_front = refl
read_answers-write_records record_type front (r ∷ rs) best some_front =
    let front' = front ++ record_bytes r in
    let rest = write_records rs in
    let same : front' ++ rest ≡ front ++ write_record r rest =
      append_assoc front (record_bytes r) rest in
    let moved : length front' ≡ length front + (12 + length r.payload) =
      omega (arith, length-append front (record_bytes r)) in
    let best' = consider record_type (read_as r) best in
    let later : read_answers (length rs) (front' ++ rest) record_type (length front') best'
        ≡ ok (best_of record_type rs best') =
      read_answers-write_records record_type front' rs best' (omega (arith, moved, some_front)) in
    rw (read_record-write_record front r rest some_front) (
      ap
        (λ p. read_answers (length rs) p record_type (length front + (12 + length r.payload)) best')
        (sym same)
      ∙ ap (λ m. read_answers (length rs) (front' ++ rest) record_type m best') (sym moved)
      ∙ later)
