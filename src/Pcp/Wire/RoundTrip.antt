-- ===== src/Pcp/Wire/RoundTrip.antt =====
-- The options of a request: `pcpOptions` reads back what is written, and its fuel suffices.
use mathlib.Core.List.{append_assoc, append-nil}
use sixup.Common.{
  ℕ, zero, suc, ◌+◌, ◌-◌, ◌≤◌, ◌<◌, ◌≡◌, refl, sym, false, ◌||◌, List, [], ◌∷◌, ◌++◌, ◌==◌, ltb,
  length, drop, slice, get_or, replicate, be_bytes, from_be, All, arith, length-append, length-drop,
  length-replicate, take_front, drop_front,
}
use package.sixup.Pcp.Wire.{PcpOption, pcp_options, options_from, padded_len, pcp_success}

-- More fuel than bytes changes nothing: the loop ends by its test.
options_from_fuel :
    (n m : ℕ) (out : List PcpOption) (b : List ℕ)
    → length b ≤ n
    → length b ≤ m
    → options_from n out b ≡ options_from m out b
unfolding options_from
options_from_fuel zero zero out b h k = refl
options_from_fuel zero (suc m) out b h k = ground arith
options_from_fuel (suc n) zero out b h k = ground arith
options_from_fuel (suc n) (suc m) out b h k =
    let size = from_be (slice 2 4 b) in
    let option : PcpOption = record { code = get_or b 0 0; payload = slice 4 (4 + size) b } in
    ground (
      arith,
      length-drop (padded_len size) b,
      options_from_fuel n m (out ++ (option ∷ [])) (drop (padded_len size) b),
    )

-- An option as a client writes it: code, a reserved byte, the length, the data and the padding.
pub write_option : PcpOption → List ℕ
write_option o =
    o.code
    ∷ 0
    ∷ (be_bytes 2 (length o.payload)
        ++ (o.payload ++ replicate (padded_len (length o.payload) - 4 - length o.payload) 0))

pub write_options : List PcpOption → List ℕ
write_options [] = []
write_options (o ∷ opts) = write_option o ++ write_options opts

abbrev IsShort : PcpOption → Type 0
IsShort o = length o.payload < 65536

read_length : (n : ℕ) → n < 65536 → from_be (be_bytes 2 n) ≡ n
read_length n h = omega arith

length-write_option : (o : PcpOption) → length (write_option o) ≡ padded_len (length o.payload)
unfolding write_option
length-write_option o =
    let size = length o.payload in
    let pad = padded_len size - 4 - size in
    omega (arith, length-append o.payload (replicate pad 0), length-replicate {A = ℕ} pad 0)

module _ (o : PcpOption) (rest : List ℕ) where
  read_size : IsShort o → from_be (slice 2 4 (write_option o ++ rest)) ≡ length o.payload
  unfolding write_option
  read_size h = read_length (length o.payload) h

  read_payload : slice 4 (4 + length o.payload) (write_option o ++ rest) ≡ o.payload
  unfolding write_option
  read_payload =
      rw (append_assoc o.payload _ rest)
        (take_front (4 + length o.payload - 4) o.payload _ (omega arith))

  read_code : get_or (write_option o ++ rest) 0 0 ≡ o.code
  unfolding write_option
  read_code = refl

  skip_option : drop (padded_len (length o.payload)) (write_option o ++ rest) ≡ rest
  skip_option = drop_front _ (write_option o) rest (sym (length-write_option o))

  read_option :
      (n : ℕ) (out : List PcpOption)
      → IsShort o
      → options_from (suc n) out (write_option o ++ rest) ≡ options_from n (out ++ (o ∷ [])) rest
  unfolding options_from
  read_option n out h =
      let long = length-append (write_option o) rest in
      let longer = length-write_option o in
      let more : (length (write_option o ++ rest) == 0) ≡ false = ground arith in
      let whole : (ltb (length (write_option o ++ rest)) 4
            || ltb (length (write_option o ++ rest)) (padded_len (length o.payload)))
          ≡ false =
        ground arith in
      rw (read_size h, read_payload, read_code, skip_option, more, whole)

read_end :
    (n : ℕ) (out : List PcpOption)
    → options_from n out [] ≡ record { opts = out; code = pcp_success }
unfolding options_from
read_end zero out = refl
read_end (suc n) out = refl

-- One option less to read for each that is written, and fuel to spare.
read_options :
    (opts out : List PcpOption) (n : ℕ)
    → All IsShort opts
    → length (write_options opts) ≤ n
    → options_from n out (write_options opts) ≡ record { opts = out ++ opts; code = pcp_success }
unfolding write_options
read_options [] out n h l = rw (read_end n out, append-nil out)
read_options (o ∷ opts) out zero h l =
    let some_bytes = length-append (write_option o) (write_options opts) in
    absurd (omega (arith, length-write_option o))
read_options (o ∷ opts) out (suc n) h l =
    let all = length-append (write_option o) (write_options opts) in
    let fewer : length (write_options opts) ≤ n = omega (arith, length-write_option o) in
    rw (
      read_option o (write_options opts) n out h.0,
      read_options opts (out ++ (o ∷ [])) n h.1 fewer,
      append_assoc out (o ∷ []) opts,
    )

-- The options that a client writes, each with data of less than 65536 bytes, are the options that
-- the server reads.
pub pcp_options-write_options :
    (opts : List PcpOption)
    → All IsShort opts
    → pcp_options (write_options opts) ≡ record { opts = opts; code = pcp_success }
unfolding pcp_options
pcp_options-write_options opts h =
    read_options opts [] (length (write_options opts)) h (omega arith)
