-- ===== src/Operation/Codec/Fields.antt =====
-- A payload as a sequence of fields: any fields written in order are read back in order.
use mathlib.Core.List.{append_assoc, append-nil}
use hart_link.Common.{
  ℕ, false, ◌-◌, ◌<◌, ◌^◌, ◌≡◌, refl, arith, ap, sym, ◌∙◌, List, [], ◌∷◌, ◌++◌, All, length,
  length-append, Result, ok, ok_inj, ◌>>=◌, ltb, be16, be24, be32,
}
use Prim.Native.String.{String}
use hart_link.Operation.Codec.{
  PayloadWriter, PayloadReader, OperationError, new_writer, new_reader, write_u8, write_u16,
  write_u24, write_u32, write_f32, write_bytes, read_u8, read_u16, read_u24, read_u32, read_f32,
  read_bytes, finish_reader,
}
use hart_link.Operation.Codec.Laws.{
  At, moved, read_bytes-append, read_u8-cons, read_u16-be16, read_u24-be24, read_u32-be32,
  read_f32-be32,
}

pub data Field : Type 0 where
  byte half triple word real : ℕ → Field
  raw : List ℕ → Field

-- The value fits its field.
abbrev pub FitsField : Field → Type 0
FitsField (byte x) = x < 2 ^ 8
FitsField (half x) = x < 2 ^ 16
FitsField (triple x) = x < 2 ^ 24
FitsField (word x) = x < 2 ^ 32
FitsField (real x) = x < 2 ^ 32
FitsField (raw xs) = Unit

unfoldable pub write_field : PayloadWriter → Field → Result OperationError PayloadWriter
write_field w (byte x) = ok (write_u8 w x)
write_field w (half x) = ok (write_u16 w x)
write_field w (triple x) = write_u24 w x
write_field w (word x) = ok (write_u32 w x)
write_field w (real x) = ok (write_f32 w x)
write_field w (raw xs) = ok (write_bytes w xs)

unfoldable pub write_fields : PayloadWriter → List Field → Result OperationError PayloadWriter
write_fields w [] = ok w
write_fields w (f ∷ fs) = do w' ← write_field w f; write_fields w' fs

-- The reader is asked for the same kinds of fields, and for as many bytes.
pub read_field : PayloadReader → Field → String → Result OperationError (Field × PayloadReader)
read_field r (byte _) name = do (x, r') ← read_u8 r name; ok (byte x, r')
read_field r (half _) name = do (x, r') ← read_u16 r name; ok (half x, r')
read_field r (triple _) name = do (x, r') ← read_u24 r name; ok (triple x, r')
read_field r (word _) name = do (x, r') ← read_u32 r name; ok (word x, r')
read_field r (real _) name = do (x, r') ← read_f32 r name; ok (real x, r')
read_field r (raw xs) name = do (ys, r') ← read_bytes r (length xs) name; ok (raw ys, r')

pub read_fields :
    PayloadReader → List Field → String → Result OperationError (List Field × PayloadReader)
read_fields r [] name = ok ([], r)
read_fields r (f ∷ fs) name = do
  (x, r') ← read_field r f name
  (xs, r'') ← read_fields r' fs name
  ok (x ∷ xs, r'')

abbrev field_bytes : Field → List ℕ
field_bytes (byte x) = x ∷ []
field_bytes (half x) = be16 x
field_bytes (triple x) = be24 x
field_bytes (word x) = be32 x
field_bytes (real x) = be32 x
field_bytes (raw xs) = xs

abbrev fields_bytes : List Field → List ℕ
fields_bytes [] = []
fields_bytes (f ∷ fs) = field_bytes f ++ fields_bytes fs

write_field_lem :
    (w : PayloadWriter) (f : Field)
    → FitsField f
    → write_field w f ≡ ok (record { written = w.written ++ field_bytes f })
unfolding write_field write_u8 write_u16 write_u24 write_u32 write_f32 write_bytes
write_field_lem w (byte x) h = refl
write_field_lem w (half x) h = refl
write_field_lem w (triple x) h = let small : ltb 0x00ffffff x ≡ false = ground arith in rw small
write_field_lem w (word x) h = refl
write_field_lem w (real x) h = refl
write_field_lem w (raw xs) h = refl

write_fields_lem :
    (w : PayloadWriter) (fs : List Field)
    → All FitsField fs
    → write_fields w fs ≡ ok (record { written = w.written ++ fields_bytes fs })
unfolding write_fields
write_fields_lem w [] h = rw (append-nil w.written)
write_fields_lem w (f ∷ fs) h =
    rw
      (
        write_field_lem w f h.0,
        write_fields_lem (record { written = w.written ++ field_bytes f }) fs h.1,
      )
      (ap (λ (t : List ℕ). ok (record { written = t }))
        (append_assoc w.written (field_bytes f) (fields_bytes fs)))

read_field_lem :
    (r : PayloadReader) (before after : List ℕ) (f : Field) (name : String)
    → At r before (field_bytes f ++ after)
    → FitsField f
    → read_field r f name ≡ ok (f, moved r (length (field_bytes f)))
unfolding read_field
read_field_lem r before after (byte x) name a h = rw (read_u8-cons r before after name x a)
read_field_lem r before after (half x) name a h = rw (read_u16-be16 r before after name x a h)
read_field_lem r before after (triple x) name a h = rw (read_u24-be24 r before after name x a h)
read_field_lem r before after (word x) name a h = rw (read_u32-be32 r before after name x a h)
read_field_lem r before after (real x) name a h = rw (read_f32-be32 r before after name x a h)
read_field_lem r before after (raw xs) name a h = rw (read_bytes-append r before xs after name a)

moved-At :
    (r : PayloadReader) (before xs after : List ℕ)
    → At r before (xs ++ after)
    → At (moved r (length xs)) (before ++ xs) after
moved-At r before xs after a = record {
  data_split = a.data_split ∙ sym (append_assoc before xs after);
  position = omega (arith, a.position, length-append before xs);
  addressable = a.addressable;
}

read_fields_lem :
    (r : PayloadReader) (before : List ℕ) (fs : List Field) (name : String)
    → At r before (fields_bytes fs)
    → All FitsField fs
    → (r' : PayloadReader) × (read_fields r fs name ≡ ok (fs, r')) × (finish_reader r' ≡ ok tt)
unfolding read_fields
read_fields_lem r before [] name a h =
    let none_left : length r.bytes - r.offset ≡ 0 =
      omega (arith, ap length a.data_split, length-append before [], a.position) in
    (r, refl, unfold finish_reader in rw none_left)
read_fields_lem r before (f ∷ fs) name a h =
    let (r', got, done) =
      read_fields_lem (moved r (length (field_bytes f))) (before ++ field_bytes f) fs name
        (moved-At r before (field_bytes f) (fields_bytes fs) a) h.1 in
    (r', rw (read_field_lem r before (fields_bytes fs) f name a h.0, got), done)

-- Fields in range that are written one after another, of a payload that fits the address space, are
-- read back with the same values in the same order, and the reader has then consumed all the data.
pub read_fields-write_fields :
    (fs : List Field) (w : PayloadWriter) (name : String)
    → All FitsField fs
    → write_fields new_writer fs ≡ ok w
    → length w.written < 2 ^ 63
    → (r : PayloadReader) × (read_fields (new_reader w.written) fs name ≡ ok (fs, r))
      × (finish_reader r ≡ ok tt)
unfolding new_reader
read_fields-write_fields fs w name h e fits =
    let made =
      ap (λ (v : PayloadWriter). v.written) (ok_inj (sym e ∙ write_fields_lem new_writer fs h)) in
    read_fields_lem (new_reader w.written) [] fs name
      (record { data_split = made; position = refl; addressable = fits }) h
