-- ===== src/Quarantine/Index/Fuel.antt =====
-- Loading ends on every text: the fuel that `load_text` gives is always enough.
use vaulkeeper.Prelude.{
  Bool, Option, arith, false, if◌then◌else◌, length, none, some, suc, true, zero, ℕ, ◌+◌, ◌<◌, ◌≤◌,
}
use vaulkeeper.Prelude.Bytes.{Bytes, bytes_eq, codes}
use vaulkeeper.Prelude.Int.{ℤ}
use vaulkeeper.Quarantine.Index.{
  Loaded, Next, QuarantineItem, add_if_valid, after_item, again, close_item, empty_item, load_text,
  load_text_fuel, nothing_loaded, or_brace, read_field, read_fields, read_items, set_field, stop,
  store_bool, store_int, store_string,
}
use vaulkeeper.Quarantine.Json.{
  Scan, consume, found, missing, peek, read_bool, read_int, read_key, read_string, rest_of,
  skip_whitespace, ◌then_scan◌,
}
use vaulkeeper.Quarantine.Json.Progress.{
  Keeps, Keeps-mono, Keeps-of_Leaves, Leaves, Leaves-mono, Leaves-of_Keeps, consume-Leaves,
  length-skip_whitespace, peek-Keeps, read_bool-Keeps, read_int-Keeps, read_key-Keeps,
  read_string-Leaves, then_scan-Keeps, then_scan-Leaves,
}

store_string-Keeps :
    (update : Bytes → QuarantineItem) (bs : Bytes) → Keeps (length bs) (store_string update bs)
store_string-Keeps update bs =
    then_scan-Keeps _ (read_string bs) _
      (Keeps-of_Leaves _ (read_string bs) (read_string-Leaves bs)) (λ v rest h. h)

store_int-Keeps :
    (update : ℤ → QuarantineItem) (bs : Bytes) → Keeps (length bs) (store_int update bs)
store_int-Keeps update bs = then_scan-Keeps _ (read_int bs) _ (read_int-Keeps bs) (λ v rest h. h)

store_bool-Keeps :
    (update : Bool → QuarantineItem) (bs : Bytes) → Keeps (length bs) (store_bool update bs)
store_bool-Keeps update bs = then_scan-Keeps _ (read_bool bs) _ (read_bool-Keeps bs) (λ v rest h. h)

-- A property of both branches holds of the conditional.
if-Keeps :
    (n : ℕ) (b : Bool) (s t : Scan QuarantineItem)
    → Keeps n s
    → Keeps n t
    → Keeps n (if b then s else t)
if-Keeps n true s t h k = h
if-Keeps n false s t h k = k

set_field-Keeps :
    (key : Bytes) (item : QuarantineItem) (bs : Bytes) → Keeps (length bs) (set_field key item bs)
unfolding set_field
set_field-Keeps key item bs = if-Keeps _ (bytes_eq key (codes "id")) _ _ (store_string-Keeps _ bs) (
    if-Keeps _ (bytes_eq key (codes "original")) _ _ (store_string-Keeps _ bs) (
      if-Keeps _ (bytes_eq key (codes "storage")) _ _ (store_string-Keeps _ bs) (
        if-Keeps _ (bytes_eq key (codes "original_size")) _ _ (store_int-Keeps _ bs) (
          if-Keeps _ (bytes_eq key (codes "stored_size")) _ _ (store_int-Keeps _ bs) (
            if-Keeps _ (bytes_eq key (codes "captured_ns")) _ _ (store_int-Keeps _ bs) (
              if-Keeps _ (bytes_eq key (codes "expires_ns")) _ _ (store_int-Keeps _ bs) (
                if-Keeps _ (bytes_eq key (codes "compressed")) _ _ (store_bool-Keeps _ bs) (
                  if-Keeps _ (bytes_eq key (codes "reason")) _ _ (store_string-Keeps _ bs) (
                    if-Keeps _ (bytes_eq key (codes "correlation")) _ _ (store_string-Keeps _ bs)
                      (omega arith))))))))))

or_brace-Keeps :
    (n : ℕ) (item : QuarantineItem) (s : Scan (Unit {0})) → Keeps n s → Keeps n (or_brace item s)
or_brace-Keeps n item (found _ rest) h = h
or_brace-Keeps n item (missing rest) h =
    then_scan-Keeps n (peek b'}' rest) _ (Keeps-mono _ _ (peek b'}' rest) h (peek-Keeps b'}' rest))
      (λ v r k. k)

-- A field that is read takes at least its key's opening quote.
read_field-Leaves : (item : QuarantineItem) (bs : Bytes) → Leaves (length bs) (read_field item bs)
unfolding read_field
read_field-Leaves item bs =
    then_scan-Leaves _ (read_string (skip_whitespace bs)) _
      (Leaves-mono _ _ (read_string (skip_whitespace bs)) (length-skip_whitespace bs)
        (read_string-Leaves (skip_whitespace bs)))
      λ key behind h.
        then_scan-Leaves _ (consume b':' behind) _
          (Leaves-mono _ _ (consume b':' behind) (omega arith) (consume-Leaves b':' behind))
          λ _ value k.
            then_scan-Leaves _ (set_field key item value) _
              (Leaves-of_Keeps (length value) _ (set_field key item value) (omega arith)
                (set_field-Keeps key item value))
              λ item' end j.
                Leaves-of_Keeps (length end) _ (or_brace item' (consume b',' end)) (omega arith) (
                  or_brace-Keeps _ item' (consume b',' end)
                    (Keeps-of_Leaves _ (consume b',' end) (consume-Leaves b',' end)))

-- What the inner loop returns.
abbrev Returns : ℕ → Option (Scan QuarantineItem) → Type 0
Returns n none = ⊥
Returns n (some s) = Keeps n s

Returns-mono : (m n : ℕ) (o : Option (Scan QuarantineItem)) → m ≤ n → Returns m o → Returns n o
Returns-mono m n none h r = r
Returns-mono m n (some s) h r = Keeps-mono m n s h r

read_fields-Returns :
    (fuel : ℕ) (item : QuarantineItem) (bs : Bytes)
    → length bs < fuel
    → Returns (length bs) (read_fields fuel item bs)
unfolding read_fields
read_fields-Returns zero item bs h = omega arith
read_fields-Returns (suc fuel) item bs h =
    at_brace (λ i b k. read_fields-Returns fuel i b k) (peek b'}' bs) (peek-Keeps b'}' bs)
  where
    after_field :
        ((i : QuarantineItem) (b : Bytes)
          → length b < fuel
          → Returns (length b) (read_fields fuel i b))
        → (rest : Bytes) (s : Scan QuarantineItem) → length rest ≤ length bs
        → Leaves (length rest) s
        → Returns (length bs) (elim s [
          | found item' rest' ↦ read_fields fuel item' rest'
          | missing rest' ↦ some (missing rest')
        ])
    after_field ih rest (found item' rest') k l =
        Returns-mono _ _ (read_fields fuel item' rest') (omega arith) (ih item' rest' (omega arith))
    after_field ih rest (missing rest') k l = omega arith

    at_brace :
        ((i : QuarantineItem) (b : Bytes)
          → length b < fuel
          → Returns (length b) (read_fields fuel i b))
        → (s : Scan (Unit {0})) → Keeps (length bs) s
        → Returns (length bs) (elim s [
          | found _ rest ↦ some (found item rest)
          | missing rest ↦ elim (read_field item rest) [
            | found item' rest' ↦ read_fields fuel item' rest'
            | missing rest' ↦ some (missing rest')
          ]
        ])
    at_brace ih (found _ rest) k = k
    at_brace ih (missing rest) k =
        after_field ih rest (read_field item rest) k (read_field-Leaves item rest)

-- Whether the outer loop has at most `n` bytes to go on with.
abbrev Goes : ℕ → Next → Type 0
Goes n (stop st) = Unit
Goes n (again st rest) = length rest ≤ n

after_item-Goes : (st : Loaded) (bs : Bytes) → Goes (length bs) (after_item st bs)
unfolding after_item
after_item-Goes st bs =
    at_comma (consume b',' bs) (Keeps-of_Leaves _ (consume b',' bs) (consume-Leaves b',' bs))
  where
    at_bracket :
        (rest : Bytes) (s : Scan (Unit {0}))
        → length rest ≤ length bs
        → Keeps (length rest) s
        → Goes (length bs) (elim s [ found _ rest' ↦ again st rest' | missing _ ↦ stop st ])
    at_bracket rest (found _ rest') h k = omega arith
    at_bracket rest (missing _) h k = tt

    at_comma :
        (s : Scan (Unit {0}))
        → Keeps (length bs) s
        → Goes (length bs) (elim s [
          | found _ rest ↦ again st rest
          | missing rest ↦ elim (peek b']' rest) [
            | found _ rest' ↦ again st rest'
            | missing _ ↦ stop st
          ]
        ])
    at_comma (found _ rest) k = k
    at_comma (missing rest) k = at_bracket rest (peek b']' rest) k (peek-Keeps b']' rest)

close_item-Goes :
    (n : ℕ) (s : Scan QuarantineItem) (st : Loaded) → Keeps n s → Goes n (close_item s st)
unfolding close_item
close_item-Goes n s st h = at_brace (consume b'}' (rest_of s)) (consume-Leaves b'}' (rest_of s))
  where
    rest_of-Keeps : (s : Scan QuarantineItem) → Keeps n s → length (rest_of s) ≤ n
    rest_of-Keeps (found _ rest) k = k
    rest_of-Keeps (missing rest) k = k

    Goes-mono : (m : ℕ) (g : Next) → m ≤ n → Goes m g → Goes n g
    Goes-mono m (stop st) l g = tt
    Goes-mono m (again st rest) l g = omega arith

    at_brace :
        (c : Scan (Unit {0}))
        → Leaves (length (rest_of s)) c
        → Goes n (elim c [
          | missing _ ↦ stop st
          | found _ behind ↦ after_item (add_if_valid s st) behind
        ])
    at_brace (missing _) k = tt
    at_brace (found _ behind) k =
        Goes-mono (length behind) (after_item (add_if_valid s st) behind)
          (omega (arith, rest_of-Keeps s h)) (after_item-Goes (add_if_valid s st) behind)

-- Whether a loop has come to its end.
abbrev pub Ends : Option Loaded → Type 0
Ends none = ⊥
Ends (some st) = Unit

read_items-Ends :
    (fuel : ℕ) (st : Loaded) (bs : Bytes) → length bs < fuel → Ends (read_items fuel st bs)
unfolding read_items
read_items-Ends zero st bs h = omega arith
read_items-Ends (suc fuel) st bs h =
    at_bracket (λ st' b k. read_items-Ends fuel st' b k) (peek b']' bs) (peek-Keeps b']' bs)
  where
    go_on :
        ((st' : Loaded) (b : Bytes) → length b < fuel → Ends (read_items fuel st' b))
        → (g : Next) (n : ℕ) → n < fuel
        → Goes n g
        → Ends (elim g [ stop st' ↦ some st' | again st' rest' ↦ read_items fuel st' rest' ])
    go_on ih (stop st') n l k = tt
    go_on ih (again st' rest') n l k = ih st' rest' (omega arith)

    after_fields :
        ((st' : Loaded) (b : Bytes) → length b < fuel → Ends (read_items fuel st' b))
        → (n : ℕ) (o : Option (Scan QuarantineItem)) → n < fuel
        → Returns n o
        → Ends (elim o [
          | none ↦ none
          | some s ↦ elim (close_item s st) [
            | stop st' ↦ some st'
            | again st' rest' ↦ read_items fuel st' rest'
          ]
        ])
    after_fields ih n none l k = k
    after_fields ih n (some s) l k = go_on ih (close_item s st) n l (close_item-Goes n s st k)

    at_open :
        ((st' : Loaded) (b : Bytes) → length b < fuel → Ends (read_items fuel st' b))
        → (rest : Bytes) (c : Scan (Unit {0})) → length rest ≤ length bs
        → Leaves (length rest) c
        → Ends (elim c [
          | missing _ ↦ some st
          | found _ inside ↦ elim (read_fields fuel empty_item inside) [
            | none ↦ none
            | some s ↦ elim (close_item s st) [
              | stop st' ↦ some st'
              | again st' rest' ↦ read_items fuel st' rest'
            ]
          ]
        ])
    at_open ih rest (missing _) l k = tt
    at_open ih rest (found _ inside) l k =
        after_fields ih (length inside) (read_fields fuel empty_item inside) (omega arith)
          (read_fields-Returns fuel empty_item inside (omega arith))

    at_bracket :
        ((st' : Loaded) (b : Bytes) → length b < fuel → Ends (read_items fuel st' b))
        → (s : Scan (Unit {0})) → Keeps (length bs) s
        → Ends (elim s [
          | found _ _ ↦ some st
          | missing rest ↦ elim (consume b'{' rest) [
            | missing _ ↦ some st
            | found _ inside ↦ elim (read_fields fuel empty_item inside) [
              | none ↦ none
              | some s ↦ elim (close_item s st) [
                | stop st' ↦ some st'
                | again st' rest' ↦ read_items fuel st' rest'
              ]
            ]
          ]
        ])
    at_bracket ih (found _ _) k = tt
    at_bracket ih (missing rest) k =
        at_open ih rest (consume b'{' rest) k (consume-Leaves b'{' rest)

-- Loading the index comes to an end, whatever bytes the file holds.
pub load_text-Ends : (raw : Bytes) → Ends (load_text raw)
unfolding load_text load_text_fuel read_key
load_text-Ends raw = at_list header (
    then_scan-Keeps _ (consume b'{' raw) _
      (Keeps-of_Leaves _ (consume b'{' raw) (consume-Leaves b'{' raw))
      λ _ a h.
        then_scan-Keeps _ (read_key (codes "items") a) _
          (Keeps-mono _ _ (read_key (codes "items") a) h (read_key-Keeps (codes "items") a))
          λ _ b k.
            Keeps-mono _ _ (consume b'[' b) k
              (Keeps-of_Leaves _ (consume b'[' b) (consume-Leaves b'[' b)))
  where
    header : Scan (Unit {0})
    header =
        consume b'{' raw then_scan λ _ a. read_key (codes "items") a then_scan λ _ b. consume b'[' b

    at_list :
        (s : Scan (Unit {0}))
        → Keeps (length raw) s
        → Ends (elim s [
          | missing _ ↦ some nothing_loaded
          | found _ rest ↦ read_items (length raw + 1) nothing_loaded rest
        ])
    at_list (missing _) k = tt
    at_list (found _ rest) k = read_items-Ends (length raw + 1) nothing_loaded rest (omega arith)
