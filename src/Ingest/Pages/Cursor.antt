-- ===== src/Ingest/Pages/Cursor.antt =====
-- controller/internal/queryingest/service.go: a cursor is read back as it was written.
use Prim.Native.String.{◌++◌ as append}
use mosdns_controller.Base.{
  ℕ, ◌≤◌, ◌<◌, ◌≡◌, ◌≢◌, eq_iff, refl, ap, String, Bool, true, false, some, ltb, str_eq, arith,
}
use mosdns_controller.Go.Int.{pos}
use mosdns_controller.Go.Text.{contains_char}
use mosdns_controller.Go.Text.Split.{nil_append, cons_append, split_char-whole, split_char-append}
use mosdns_controller.Ingest.Pages.{Codec, Key, encode_cursor, decode_cursor}

-- What the code relies on: base64 decodes what it encodes, and encodes no text but the empty one as
-- nothing; strconv parses the digits that it formats, and they have no colon.
pub record IsCodec (c : Codec) : Type 0 where
  pub decode-encode : (s : String) → c.decode (c.encode s) ≡ some s
  pub nonempty : (s : String) → s ≢ "" → c.encode s ≢ ""
  pub parse-format :
      (n : ℕ) → n < 9223372036854775808 → c.parse_int (c.format_int (pos n)) ≡ some (pos n)
  pub no_colon : (n : ℕ) → contains_char (c.format_int (pos n)) b':' ≡ false

-- A key of a row: int64 values, a time that is not negative and an identifier above zero.
pub record IsKey (k : Key) : Type 0 where
  pub time : ℕ
  pub timestamp : k.timestamp_ms ≡ pos time
  pub time_fits : time < 9223372036854775808
  pub id : 1 ≤ k.id
  pub id_fits : k.id < 9223372036854775808

-- The cursor of a row is read back as its key.
pub decode_cursor-encode_cursor :
    (c : Codec) (k : Key) → IsCodec c → IsKey k → decode_cursor c (encode_cursor c k) ≡ some k
unfolding decode_cursor encode_cursor
decode_cursor-encode_cursor c k h key =
    let ts = c.format_int (pos key.time) in
    let id = c.format_int (pos k.id) in
    let positive : ltb k.id 1 ≡ false = ground (arith, key.id) in
    rw
      (
        key.timestamp,
        h.decode-encode,
        cons_append,
        nil_append,
        split_char-append ts id b':' ":" refl (h.no_colon key.time),
        split_char-whole id b':' (h.no_colon k.id),
        h.parse-format key.time key.time_fits,
        h.parse-format k.id key.id_fits,
        positive,
      )
      refl

abbrev has_text : String → Bool
has_text String.[] = false
has_text (String.◌∷◌ x s) = true

joined : (s t : String) → has_text (append s (append ":" t)) ≡ true
joined String.[] t = rw (nil_append, cons_append) refl
joined (String.◌∷◌ x s) t = rw cons_append refl

pub encode_cursor_nonempty :
    (c : Codec) (k : Key) → IsCodec c → str_eq (encode_cursor c k) "" ≡ false
unfolding encode_cursor
encode_cursor_nonempty c k h =
    let text = append (c.format_int k.timestamp_ms) (append ":" (c.format_int (pos k.id))) in
    let full : text ≢ "" = λ e.
      ground
        (arith, joined (c.format_int k.timestamp_ms) (c.format_int (pos k.id)), ap has_text e) in
    ground (arith, eq_iff (c.encode text) "", h.nonempty text full)
