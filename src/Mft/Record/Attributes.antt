-- ===== src/Mft/Record/Attributes.antt =====
-- The walk over the attributes of a record copies from inside of it.
use vaulkeeper.Mft.Fixup.{copy}
use vaulkeeper.Mft.Fixup.Inside.{copy-slice}
use vaulkeeper.Mft.Record.{
  Fields, Walked, attribute_header_size, attribute_length, attribute_name_length, attribute_round,
  attribute_type, data_offset, file_name_fields, go_on, non_resident, read_attribute,
  standard_fields, strayed, unfinished, walk_attributes, walked, wide_fields,
}
use vaulkeeper.Prelude.{
  Option, arith, if-cases, leb, leb→le, length, ltb, none, not, some, suc, zero, ℕ, ◌%◌, ◌&&◌, ◌*◌,
  ◌+◌, ◌==◌, ◌^◌, ◌≡◌, ◌≤◌,
}
use vaulkeeper.Prelude.Bytes.{AllBytes, AllBytes-slice, Bytes, from_le, from_le-slice_lt, slice}

-- There is something.
abbrev pub IsSome {ℓ} : {A : Type ℓ} → Option A → Type 0
IsSome none = ⊥
IsSome (some a) = Unit

copied :
    (f : Option Bytes → Option Fields) (at n : ℕ) (bytes : Bytes)
    → at + n ≤ length bytes
    → IsSome (f (some (slice at n bytes)))
    → IsSome (f (copy at n bytes))
copied f at n bytes h some_fields = rw (copy-slice at n bytes h) some_fields

read_attribute-IsSome :
    (utf8 : Bytes → Bytes) (record_size : ℕ) (bytes : Bytes) (offset : ℕ) (header : Bytes)
    (p : Fields)
    → AllBytes bytes
    → length bytes ≡ record_size
    → record_size + 512 ≤ 2 ^ 32
    → IsSome (read_attribute utf8 record_size bytes offset header p)
unfolding read_attribute
read_attribute-IsSome utf8 record_size bytes offset header p all e room =
    if-cases IsSome (attribute_type header == 0x10 && non_resident header == 0)
      (λ h.
        if-cases IsSome (leb (at + 36) record_size)
          (λ k. copied (standard_fields p) at 36 bytes (omega (arith, leb→le _ _ k)) tt) (λ k. tt))
      (λ h.
        if-cases IsSome (attribute_type header == 0x30 && non_resident header == 0)
          (λ h'.
            if-cases IsSome (leb (at + 68) record_size)
              (λ k.
                copied (file_name_fields utf8 record_size p at bytes) at 68 bytes
                  (omega (arith, leb→le _ _ k))
                  (named (slice at 68 bytes) (AllBytes-slice at 68 bytes all) (leb→le _ _ k)))
              (λ k. tt))
          (λ h'.
            if-cases IsSome
              (attribute_type header == 0x80
                && not (non_resident header == 0)
                && attribute_name_length header == 0)
              (λ k. tt) (λ k. tt)))
  where
    at : ℕ
    at = data_offset offset header

    named :
        (name : Bytes)
        → AllBytes name
        → at + 68 ≤ record_size
        → IsSome (file_name_fields utf8 record_size p at bytes (some name))
    named name a k =
        let n = from_le (slice 64 1 name) in
        if-cases IsSome (leb ((at + 66 + n * 2) % 2 ^ 32) record_size)
          (λ h.
            copied (wide_fields utf8 record_size p name) (at + 66) (n * 2) bytes
              (omega (arith, from_le-slice_lt 1 64 name a, leb→le _ _ h)) tt)
          (λ h. tt)

-- The walk copies nothing from outside.
abbrev pub KeepsIn : Walked → Type 0
KeepsIn (walked p) = Unit
KeepsIn strayed = ⊥
KeepsIn unfinished = Unit

go_on-KeepsIn :
    (later : Fields → Walked) (o : Option Fields)
    → IsSome o
    → ((p : Fields) → KeepsIn (later p))
    → KeepsIn (go_on later o)
go_on-KeepsIn later none h k = elim h [ ]
go_on-KeepsIn later (some p) h k = k p

attribute_round-KeepsIn :
    (utf8 : Bytes → Bytes) (record_size : ℕ) (later : ℕ → Fields → Walked) (bytes : Bytes)
    (offset : ℕ) (p : Fields) (header : Bytes)
    → IsSome (read_attribute utf8 record_size bytes offset header p)
    → ((next : ℕ) (q : Fields) → KeepsIn (later next q))
    → KeepsIn (attribute_round utf8 record_size later bytes offset p (some header))
attribute_round-KeepsIn utf8 record_size later bytes offset p header some_fields go =
    if-cases KeepsIn (attribute_type header == 0xFFFFFFFF) (λ h. tt)
      λ h.
        if-cases KeepsIn (attribute_length header == 0) (λ h. tt)
          λ h.
            if-cases KeepsIn (ltb record_size ((offset + attribute_length header) % 2 ^ 32))
              (λ h. tt)
              λ h.
                go_on-KeepsIn (later ((offset + attribute_length header) % 2 ^ 32))
                  (read_attribute utf8 record_size bytes offset header p) some_fields
                  (go ((offset + attribute_length header) % 2 ^ 32))

pub walk_attributes-KeepsIn :
    (utf8 : Bytes → Bytes) (record_size fuel : ℕ) (bytes : Bytes) (offset : ℕ) (p : Fields)
    → AllBytes bytes
    → length bytes ≡ record_size
    → record_size + 512 ≤ 2 ^ 32
    → KeepsIn (walk_attributes utf8 record_size fuel bytes offset p)
unfolding walk_attributes
walk_attributes-KeepsIn utf8 record_size zero bytes offset p all e room = tt
walk_attributes-KeepsIn utf8 record_size (suc fuel) bytes offset p all e room =
    if-cases KeepsIn (leb (offset + attribute_header_size) record_size)
      (λ h. rw (copy-slice offset attribute_header_size bytes (omega (arith, leb→le _ _ h))) (
        attribute_round-KeepsIn utf8 record_size (walk_attributes utf8 record_size fuel bytes) bytes
          offset p (slice offset 64 bytes)
          (read_attribute-IsSome utf8 record_size bytes offset (slice offset 64 bytes) p all e room)
          (λ next q. walk_attributes-KeepsIn utf8 record_size fuel bytes next q all e room)))
      (λ h. tt)
