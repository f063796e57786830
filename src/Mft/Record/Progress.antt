-- ===== src/Mft/Record/Progress.antt =====
-- When the walk over the attributes comes to an end, and when it does not.
use vaulkeeper.Mft.Fixup.Inside.{copy-slice, nonzero}
use vaulkeeper.Mft.Record.{
  Fields, Walked, attribute_header_size, attribute_length, attribute_round, attribute_type, go_on,
  read_attribute, strayed, unfinished, walk_attributes, walked,
}
use vaulkeeper.Prelude.{
  Option, arith, false, if-cases, leb, leb→le, length, le→leb, ltb, ltb-false, none, refl, some,
  suc, zero, ℕ, ◌%◌, ◌+◌, ◌<◌, ◌==◌, ◌^◌, ◌∙◌, ◌≡◌, ◌≢◌, ◌≤◌,
}
use vaulkeeper.Prelude.Bytes.{Bytes, slice}

abbrev pub ComesToAnEnd : Walked → Type 0
ComesToAnEnd (walked p) = Unit
ComesToAnEnd strayed = Unit
ComesToAnEnd unfinished = ⊥

go_on-ComesToAnEnd :
    (later : Fields → Walked) (o : Option Fields)
    → ((p : Fields) → ComesToAnEnd (later p))
    → ComesToAnEnd (go_on later o)
go_on-ComesToAnEnd later none k = tt
go_on-ComesToAnEnd later (some p) k = k p

-- The offsets of the headers that a walk from `first` may come to: behind a header that is inside the
-- record, not the terminator and not of length 0, the one that its length leads to.
pub data IsVisited (record_size : ℕ) (bytes : Bytes) (first : ℕ) : ℕ → Type 0 where
  here : IsVisited record_size bytes first first
  behind :
      {at next : ℕ}
      → IsVisited record_size bytes first at
      → at + 64 ≤ record_size
      → attribute_type (slice at 64 bytes) ≢ 0xFFFFFFFF
      → attribute_length (slice at 64 bytes) ≢ 0
      → (at + attribute_length (slice at 64 bytes)) % 2 ^ 32 ≡ next
      → IsVisited record_size bytes first next

-- The length of no attribute that the walk comes to makes the offset wrap.
abbrev pub LengthsFit : ℕ → Bytes → ℕ → Type 0
LengthsFit record_size bytes first =
    (at : ℕ)
    → IsVisited record_size bytes first at
    → at + 64 ≤ record_size
    → attribute_type (slice at 64 bytes) ≢ 0xFFFFFFFF
    → at + attribute_length (slice at 64 bytes) < 2 ^ 32

ne_of_test : (a b : ℕ) → (a == b) ≡ false → a ≢ b
ne_of_test a b h e = ground arith

test_of_ne : (a b : ℕ) → a ≢ b → (a == b) ≡ false
test_of_ne a b h = ground arith

attribute_round-ComesToAnEnd :
    (utf8 : Bytes → Bytes) (record_size : ℕ) (later : ℕ → Fields → Walked) (bytes : Bytes)
    (offset : ℕ) (p : Fields) (header : Bytes)
    → (attribute_type header ≢ 0xFFFFFFFF → offset + attribute_length header < 2 ^ 32)
    → ((next : ℕ) (q : Fields)
        → attribute_type header ≢ 0xFFFFFFFF
        → attribute_length header ≢ 0
        → (offset + attribute_length header) % 2 ^ 32 ≡ next
        → offset < next
        → next ≤ record_size
        → ComesToAnEnd (later next q))
    → ComesToAnEnd (attribute_round utf8 record_size later bytes offset p (some header))
attribute_round-ComesToAnEnd utf8 record_size later bytes offset p header fits go =
    if-cases ComesToAnEnd (attribute_type header == 0xFFFFFFFF) (λ h. tt)
      λ other.
        if-cases ComesToAnEnd (attribute_length header == 0) (λ h. tt)
          λ some_length.
            if-cases ComesToAnEnd (ltb record_size ((offset + attribute_length header) % 2 ^ 32))
              (λ h. tt)
              λ h.
                let kind = ne_of_test (attribute_type header) 0xFFFFFFFF other in
                go_on-ComesToAnEnd (later ((offset + attribute_length header) % 2 ^ 32))
                  (read_attribute utf8 record_size bytes offset header p)
                  (λ q.
                    go ((offset + attribute_length header) % 2 ^ 32) q kind
                      (ne_of_test (attribute_length header) 0 some_length) refl
                      (omega (arith, fits kind, nonzero (attribute_length header) some_length))
                      (ltb-false _ _ h))

-- With as many rounds as there are bytes behind the offset, and one.
walk_attributes_from :
    (utf8 : Bytes → Bytes) (record_size first fuel : ℕ) (bytes : Bytes) (offset : ℕ) (p : Fields)
    → length bytes ≡ record_size
    → LengthsFit record_size bytes first
    → IsVisited record_size bytes first offset
    → offset ≤ record_size
    → record_size < offset + fuel
    → ComesToAnEnd (walk_attributes utf8 record_size fuel bytes offset p)
unfolding walk_attributes
walk_attributes_from utf8 record_size first zero bytes offset p e fits visited inside enough =
    absurd (omega arith)
walk_attributes_from utf8 record_size first (suc fuel) bytes offset p e fits visited inside enough =
    if-cases ComesToAnEnd (leb (offset + attribute_header_size) record_size)
      (λ h.
        let room = leb→le _ _ h in
        rw (copy-slice offset attribute_header_size bytes (omega (arith, e, room))) (
          attribute_round-ComesToAnEnd utf8 record_size
            (walk_attributes utf8 record_size fuel bytes) bytes offset p (slice offset 64 bytes)
            (fits offset visited room)
            (λ next q other some_length jump l m.
              walk_attributes_from utf8 record_size first fuel bytes next q e fits
                (behind visited room other some_length jump) m (omega arith))))
      (λ h. tt)

-- The walk over the attributes of a record from an offset inside it comes to an end, in as many rounds
-- as the record has bytes and one, if no length of an attribute that it comes to makes the offset wrap.
pub walk_attributes-ComesToAnEnd :
    (utf8 : Bytes → Bytes) (record_size : ℕ) (bytes : Bytes) (offset : ℕ) (p : Fields)
    → length bytes ≡ record_size
    → LengthsFit record_size bytes offset
    → offset ≤ record_size
    → ComesToAnEnd (walk_attributes utf8 record_size (suc record_size) bytes offset p)
walk_attributes-ComesToAnEnd utf8 record_size bytes offset p e fits inside =
    walk_attributes_from utf8 record_size offset (suc record_size) bytes offset p e fits here inside
      (omega arith)

-- Attributes that the walk passes over: not the terminator, and of no type that it reads.
pub record IsPassed (header : Bytes) : Type 0 where
  pub terminator : attribute_type header ≢ 0xFFFFFFFF
  pub standard_information : attribute_type header ≢ 0x10
  pub file_name : attribute_type header ≢ 0x30
  pub contents : attribute_type header ≢ 0x80
  pub length : attribute_length header ≢ 0

pass_header :
    (utf8 : Bytes → Bytes) (record_size : ℕ) (later : ℕ → Fields → Walked) (bytes : Bytes)
    (offset next : ℕ) (p : Fields) (header : Bytes)
    → next ≤ record_size
    → IsPassed header
    → (offset + attribute_length header) % 2 ^ 32 ≡ next
    → attribute_round utf8 record_size later bytes offset p (some header) ≡ later next p
unfolding read_attribute
pass_header utf8 record_size later bytes offset next p header back passed jump =
    rw
      (
        test_of_ne _ _ passed.terminator,
        test_of_ne _ _ passed.length,
        jump,
        le_test _ _ back,
        test_of_ne _ _ passed.standard_information,
        test_of_ne _ _ passed.file_name,
        test_of_ne _ _ passed.contents,
      )
      refl
  where
    le_test : (m n : ℕ) → m ≤ n → ltb n m ≡ false
    le_test m n h = ground arith

pass :
    (utf8 : Bytes → Bytes) (record_size fuel : ℕ) (bytes : Bytes) (offset next : ℕ) (p : Fields)
    → length bytes ≡ record_size
    → offset + 64 ≤ record_size
    → next ≤ record_size
    → IsPassed (slice offset 64 bytes)
    → (offset + attribute_length (slice offset 64 bytes)) % 2 ^ 32 ≡ next
    → walk_attributes utf8 record_size (suc fuel) bytes offset p
      ≡ walk_attributes utf8 record_size fuel bytes next p
unfolding walk_attributes
pass utf8 record_size fuel bytes offset next p e inside back passed jump =
    rw (le→leb (offset + 64) record_size inside) (
      rw (copy-slice offset 64 bytes (omega arith)) (
        pass_header utf8 record_size (walk_attributes utf8 record_size fuel bytes) bytes offset next
          p (slice offset 64 bytes) back passed jump))

-- Two attributes inside the record, none of them the terminator, of length 0 or of a type that the walk
-- reads (0x10, 0x30 and 0x80), of which each one's length leads to the other by the offset in 32 bits,
-- keep the walk going, whatever the number of its rounds.
pub walk_attributes-unfinished :
    (utf8 : Bytes → Bytes) (record_size : ℕ) (bytes : Bytes) (there back : ℕ) (p : Fields)
    (fuel : ℕ)
    → length bytes ≡ record_size
    → there + 64 ≤ record_size
    → back + 64 ≤ record_size
    → IsPassed (slice there 64 bytes)
    → IsPassed (slice back 64 bytes)
    → (there + attribute_length (slice there 64 bytes)) % 2 ^ 32 ≡ back
    → (back + attribute_length (slice back 64 bytes)) % 2 ^ 32 ≡ there
    → walk_attributes utf8 record_size fuel bytes there p ≡ unfinished
walk_attributes-unfinished utf8 record_size bytes there back p zero e h k passed passed' jump
      jump' =
    unfold walk_attributes in refl
walk_attributes-unfinished utf8 record_size bytes there back p (suc fuel) e h k passed passed' jump
      jump' =
    pass utf8 record_size fuel bytes there back p e h (omega arith) passed jump
    ∙ walk_attributes-unfinished utf8 record_size bytes back there p fuel e k h passed' passed jump'
        jump
