-- ===== src/Companion/Satellite/Registration.antt =====
-- satellite.go: the ADD-DEVICE line and the configuration.
use cuebooth.Prelude.{ℕ, ◌≡◌, refl, ap, ◌∙◌, false, some, [], ◌∷◌, ◌++◌, Bytes, arith}
use cuebooth.Bytes.{bytes, print}
use cuebooth.Bytes.Decimal.{AllDigits, print-AllDigits}
use cuebooth.Companion.Line.{flush, tokenize_from, tokenize_satellite, parse_satellite_line, arg}
use cuebooth.Companion.Line.Quoting.{
  AllPlain, AllPrintable, all_plain_lem, tokenize-word, tokenize-plain, tokenize-quote,
  tokenize_space, quote,
}
use cuebooth.Companion.Satellite.{Surface, keys_total, keys_per_row, register_line}

AllDigits-AllPlain : (s : Bytes) → AllDigits s → AllPlain s
AllDigits-AllPlain [] a = tt
AllDigits-AllPlain (c ∷ s) a = (ground (arith, a.0), AllDigits-AllPlain s a.1)

-- A token `NAME=value` with a plain value, and one with a quoted value.
tokenize_plain_arg :
    (name value rest : Bytes)
    → AllPlain name
    → AllPlain value
    → tokenize_from [] false (name ++ (value ++ 32 ∷ rest))
      ≡ flush (name ++ value) ++ tokenize_from [] false rest
tokenize_plain_arg name value rest n v =
    tokenize-plain [] name (value ++ 32 ∷ rest) n ∙ tokenize-word name value rest v

tokenize_quoted_arg :
    (name value rest : Bytes)
    → AllPlain name
    → AllPrintable value
    → tokenize_from [] false (name ++ (quote value ++ 32 ∷ rest))
      ≡ flush (name ++ value) ++ tokenize_from [] false rest
tokenize_quoted_arg name value rest n p =
    tokenize-plain [] name (quote value ++ 32 ∷ rest) n
    ∙ tokenize-quote name value (32 ∷ rest) p
    ∙ tokenize_space (name ++ value) rest

tokenize_number_arg :
    (name : Bytes) (n : ℕ) (rest : Bytes)
    → AllPlain name
    → tokenize_from [] false (name ++ (print n ++ 32 ∷ rest))
      ≡ flush (name ++ print n) ++ tokenize_from [] false rest
tokenize_number_arg name n rest p =
    tokenize_plain_arg name (print n) rest p (AllDigits-AllPlain (print n) (print-AllDigits n))

pub register_line-tokens :
    (c : Surface)
    → AllPlain c.device_id
    → AllPrintable c.product_name
    → tokenize_satellite (register_line c)
      ≡ bytes "ADD-DEVICE"
        ∷ (bytes "DEVICEID=" ++ c.device_id)
        ∷ (bytes "PRODUCT_NAME=" ++ c.product_name)
        ∷ (bytes "KEYS_TOTAL=" ++ print (keys_total c))
        ∷ (bytes "KEYS_PER_ROW=" ++ print (keys_per_row c))
        ∷ (bytes "BITMAPS=" ++ print c.bitmap_size)
        ∷ bytes "COLORS=hex"
        ∷ []
unfolding tokenize_satellite register_line
register_line-tokens c d p =
    let per_row = keys_per_row c in
    let colors : Bytes = bytes "COLORS=hex" in
    let bitmaps : Bytes = bytes "BITMAPS=" ++ (print c.bitmap_size ++ 32 ∷ colors) in
    let row : Bytes = bytes "KEYS_PER_ROW=" ++ (print per_row ++ 32 ∷ bitmaps) in
    let total : Bytes = bytes "KEYS_TOTAL=" ++ (print (keys_total c) ++ 32 ∷ row) in
    let product : Bytes = bytes "PRODUCT_NAME=" ++ (quote c.product_name ++ 32 ∷ total) in
    let device : Bytes = bytes "DEVICEID=" ++ (c.device_id ++ 32 ∷ product) in
    tokenize-word [] (bytes "ADD-DEVICE") device (all_plain_lem (bytes "ADD-DEVICE") refl)
    ∙ ap (λ t. bytes "ADD-DEVICE" ∷ t)
        (tokenize_plain_arg (bytes "DEVICEID=") c.device_id product
          (all_plain_lem (bytes "DEVICEID=") refl) d)
    ∙ ap (λ t. bytes "ADD-DEVICE" ∷ (bytes "DEVICEID=" ++ c.device_id) ∷ t)
        (tokenize_quoted_arg (bytes "PRODUCT_NAME=") c.product_name total
            (all_plain_lem (bytes "PRODUCT_NAME=") refl) p
          ∙ ap (λ t. (bytes "PRODUCT_NAME=" ++ c.product_name) ∷ t)
              (tokenize_number_arg (bytes "KEYS_TOTAL=") (keys_total c) row
                  (all_plain_lem (bytes "KEYS_TOTAL=") refl)
                ∙ ap (λ t. (bytes "KEYS_TOTAL=" ++ print (keys_total c)) ∷ t)
                    (tokenize_number_arg (bytes "KEYS_PER_ROW=") per_row bitmaps
                        (all_plain_lem (bytes "KEYS_PER_ROW=") refl)
                      ∙ ap (λ t. (bytes "KEYS_PER_ROW=" ++ print per_row) ∷ t)
                          (tokenize_number_arg (bytes "BITMAPS=") c.bitmap_size colors
                              (all_plain_lem (bytes "BITMAPS=") refl)
                            ∙ ap (λ t. (bytes "BITMAPS=" ++ print c.bitmap_size) ∷ t)
                                (unfold tokenize_from in refl)))))

-- The line that registers the surface, read by the tokenizer and argument parser of the protocol,
-- is the command ADD-DEVICE with the configured identifier, product name, key counts and bitmap
-- size, where the identifier has no space, quote or backslash and the product name is of printable
-- ASCII, quotes and backslashes among it.
pub register_line-parsed :
    (c : Surface)
    → AllPlain c.device_id
    → AllPrintable c.product_name
    → let (cmd, args) = parse_satellite_line (register_line c) in
      (cmd ≡ bytes "ADD-DEVICE")
      × (arg (bytes "DEVICEID") args ≡ some c.device_id)
      × (arg (bytes "PRODUCT_NAME") args ≡ some c.product_name)
      × (arg (bytes "KEYS_TOTAL") args ≡ some (print (keys_total c)))
      × (arg (bytes "KEYS_PER_ROW") args ≡ some (print (keys_per_row c)))
      × (arg (bytes "BITMAPS") args ≡ some (print c.bitmap_size))
unfolding parse_satellite_line arg
register_line-parsed c d p = rw (register_line-tokens c d p) ((refl, refl, refl, refl, refl, refl))
