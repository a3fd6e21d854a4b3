-- ===== src/Wire/Header.antt =====
-- `encodeHeader` and `decodeHeader` of guest/src/imb_wire.hpp are inverse to one another.
use isaac_metal_bridge.Base.{
  ℕ, zero, suc, ◌+◌, ◌-◌, ◌*◌, ◌/◌, ◌^◌, ◌≤◌, ◌<◌, ◌≡◌, ◌≢◌, ◌↔◌, refl, ap, sym, ◌∙◌, none, some,
  [], ◌∷◌, ◌++◌, length, drop, arith,
}
use isaac_metal_bridge.Wire.{Bytes, MessageHeader, encode_header, decode_header, read_little_endian}
use isaac_metal_bridge.Wire.Digits.{
  digits, number, IsBytes, append_little_endian_lem, append_assoc, append-nil, number-digits,
  digits-number, number-lt,
}
use isaac_metal_bridge.Wire.Reading.{read_little_endian_lem}

-- Every field fits its C type.
pub record IsHeader (h : MessageHeader) : Type 0 where
  pub magic : h.magic < 2 ^ 32
  pub version_major : h.version_major < 2 ^ 16
  pub version_minor : h.version_minor < 2 ^ 16
  pub message_type : h.message_type < 2 ^ 16
  pub flags : h.flags < 2 ^ 16
  pub payload_length : h.payload_length < 2 ^ 32
  pub request_id : h.request_id < 2 ^ 64
  pub resource_id : h.resource_id < 2 ^ 64

-- The specification of the encoder: the digits of the fields, one after the other.
unfoldable pub laid_out : MessageHeader → Bytes
laid_out h =
    digits 4 h.magic
    ++ (digits 2 h.version_major
        ++ (digits 2 h.version_minor
            ++ (digits 2 h.message_type
                ++ (digits 2 h.flags
                    ++ (digits 4 h.payload_length
                        ++ (digits 8 h.request_id ++ digits 8 h.resource_id))))))

pub encode_header_lem : (h : MessageHeader) → encode_header h ≡ laid_out h
unfolding encode_header laid_out
encode_header_lem h = simp (append_little_endian_lem, append_assoc) refl

IsBytes-digits : (n v : ℕ) → IsBytes (digits n v)
unfolding digits
IsBytes-digits zero v = tt
IsBytes-digits (suc n) v = (omega arith, IsBytes-digits n (v / 256))

IsBytes-append : (xs ys : Bytes) → IsBytes xs → IsBytes ys → IsBytes (xs ++ ys)
IsBytes-append [] ys v w = w
IsBytes-append (x ∷ xs) ys v w = (v.0, IsBytes-append xs ys v.1 w)

laid_out-IsBytes : (h : MessageHeader) → IsBytes (laid_out h)
unfolding laid_out
laid_out-IsBytes h = IsBytes-append (digits 4 h.magic) _ (IsBytes-digits 4 h.magic) (
    IsBytes-append (digits 2 h.version_major) _ (IsBytes-digits 2 h.version_major) (
      IsBytes-append (digits 2 h.version_minor) _ (IsBytes-digits 2 h.version_minor) (
        IsBytes-append (digits 2 h.message_type) _ (IsBytes-digits 2 h.message_type) (
          IsBytes-append (digits 2 h.flags) _ (IsBytes-digits 2 h.flags) (
            IsBytes-append (digits 4 h.payload_length) _ (IsBytes-digits 4 h.payload_length) (
              IsBytes-append (digits 8 h.request_id) _ (IsBytes-digits 8 h.request_id)
                (IsBytes-digits 8 h.resource_id)))))))

-- A field of the laid out header, read back.
module _ (h : MessageHeader) where
  field :
      (width offset v : ℕ) (rest : Bytes)
      → offset + width ≤ length (laid_out h)
      → drop offset (laid_out h) ≡ digits width v ++ rest
      → v < 2 ^ (width * 8)
      → read_little_endian width (laid_out h) offset ≡ some v
  field width offset v rest room e small =
      read_little_endian_lem width (laid_out h) offset room (laid_out-IsBytes h)
      ∙ ap (λ (t : Bytes). some (number width t)) e
      ∙ ap (λ (t : ℕ). some t) (number-digits width v rest small)

  -- A message header whose fields fit their C types is decoded from its encoding.
  pub decode_header-encode_header : IsHeader h → decode_header (encode_header h) ≡ some h
  unfolding decode_header laid_out digits
  decode_header-encode_header v =
      rw
        (
          encode_header_lem h,
          field 4 0 h.magic _ (omega arith) refl v.magic,
          field 2 4 h.version_major _ (omega arith) refl v.version_major,
          field 2 6 h.version_minor _ (omega arith) refl v.version_minor,
          field 2 8 h.message_type _ (omega arith) refl v.message_type,
          field 2 10 h.flags _ (omega arith) refl v.flags,
          field 4 12 h.payload_length _ (omega arith) refl v.payload_length,
          field 8 16 h.request_id _ (omega arith) refl v.request_id,
          field 8 24 h.resource_id [] (omega arith) refl v.resource_id,
        )
        refl

drop-nil : (n : ℕ) → drop {A = ℕ} n [] ≡ []
drop-nil zero = refl
drop-nil (suc n) = refl

drop_all : (n : ℕ) (bs : Bytes) → length bs ≤ n → drop n bs ≡ []
drop_all n [] h = drop-nil n
drop_all zero (b ∷ bs) h = absurd (omega arith)
drop_all (suc n) (b ∷ bs) h = drop_all n bs (omega arith)

drop-drop : (n k : ℕ) (bs : Bytes) → drop n (drop k bs) ≡ drop (k + n) bs
drop-drop n zero bs = ap (λ (t : ℕ). drop t bs) (zero_left n)
  where
    zero_left : (n : ℕ) → n ≡ 0 + n
    zero_left n = omega arith
drop-drop n (suc k) [] = drop-nil n ∙ sym (drop-nil (suc k + n))
drop-drop n (suc k) (b ∷ bs) =
    drop-drop n k bs ∙ ap (λ (t : ℕ). drop t (b ∷ bs)) (sym (suc_left k n))
  where
    suc_left : (k n : ℕ) → suc k + n ≡ suc (k + n)
    suc_left k n = omega arith

IsBytes-drop : (n : ℕ) (bs : Bytes) → IsBytes bs → IsBytes (drop n bs)
IsBytes-drop zero bs v = v
IsBytes-drop (suc n) [] v = tt
IsBytes-drop (suc n) (b ∷ bs) v = IsBytes-drop n bs v.1

length-drop : (n : ℕ) (bs : Bytes) → length (drop n bs) ≡ length bs - n
length-drop zero bs = omega arith
length-drop (suc n) [] = omega arith
length-drop (suc n) (b ∷ bs) = omega (arith, length-drop n bs)

module _ (bs : Bytes) (size : length bs ≡ 32) (valid : IsBytes bs) where
  abbrev at : ℕ → ℕ → ℕ
  at width offset = number width (drop offset bs)

  -- The header in the bytes.
  abbrev pub held : MessageHeader
  held = record {
    magic = at 4 0;
    version_major = at 2 4;
    version_minor = at 2 6;
    message_type = at 2 8;
    flags = at 2 10;
    payload_length = at 4 12;
    request_id = at 8 16;
    resource_id = at 8 24;
  }

  read :
      (width offset : ℕ)
      → offset + width ≤ 32
      → read_little_endian width bs offset ≡ some (at width offset)
  read width offset h = read_little_endian_lem width bs offset (omega arith) valid

  small : (width offset : ℕ) → at width offset < 2 ^ (width * 8)
  small width offset = number-lt width (drop offset bs) (IsBytes-drop offset bs valid)

  chunk :
      (width offset next : ℕ) (rest : Bytes)
      → offset + width ≡ next
      → next ≤ 32
      → rest ≡ drop next bs
      → digits width (at width offset) ++ rest ≡ drop offset bs
  chunk width offset next rest e room same =
      ap (λ (t : Bytes). digits width (at width offset) ++ t)
        (same ∙ ap (λ (t : ℕ). drop t bs) (sym e) ∙ sym (drop-drop width offset bs))
      ∙ digits-number width (drop offset bs) (omega (arith, length-drop offset bs))
          (IsBytes-drop offset bs valid)

  laid_out-held : laid_out held ≡ bs
  unfolding laid_out
  laid_out-held = chunk 4 0 4 _ refl (omega arith) (
      chunk 2 4 6 _ refl (omega arith) (
        chunk 2 6 8 _ refl (omega arith) (
          chunk 2 8 10 _ refl (omega arith) (
            chunk 2 10 12 _ refl (omega arith) (
              chunk 4 12 16 _ refl (omega arith) (
                chunk 8 16 24 _ refl (omega arith) (
                  sym (append-nil (digits 8 (at 8 24)))
                  ∙ chunk 8 24 32 [] refl (omega arith) (sym (drop_all 32 bs (omega arith))))))))))

  -- Any 32 bytes are decoded to a header whose fields fit their C types and whose encoding is
  -- those bytes.
  pub encode_header-decode_header :
      (h : MessageHeader) × (decode_header bs ≡ some h) × IsHeader h × (encode_header h ≡ bs)
  unfolding decode_header
  encode_header-decode_header = (
    held,
    rw
        (
          size,
          read 4 0 (omega arith),
          read 2 4 (omega arith),
          read 2 6 (omega arith),
          read 2 8 (omega arith),
          read 2 10 (omega arith),
          read 4 12 (omega arith),
          read 8 16 (omega arith),
          read 8 24 (omega arith),
        )
        refl,
    record {
      magic = small 4 0;
      version_major = small 2 4;
      version_minor = small 2 6;
      message_type = small 2 8;
      flags = small 2 10;
      payload_length = small 4 12;
      request_id = small 8 16;
      resource_id = small 8 24;
    },
    encode_header_lem held ∙ laid_out-held,
  )

-- A sequence of bytes is refused by the decoder exactly when there are not 32 of them.
pub decode_header_iff : (bs : Bytes) → IsBytes bs → (decode_header bs ≡ none) ↔ (length bs ≢ 32)
decode_header_iff bs valid = (
  (λ e size. let r = encode_header-decode_header bs size valid in cc (e, r.1)),
  (λ h. unfold decode_header in ground arith),
)
