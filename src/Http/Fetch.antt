-- ===== src/Http/Fetch.antt =====
-- src/http.rs: the loop of `handle_request` that reads the request into its buffer.
pub mod Segments
use espcan_br.Base.{
  ℕ, ◌+◌, ◌-◌, min, Bool, true, false, ◌==◌, ◌||◌, leb, if◌then◌else◌, Option, none, some, List, [],
  ◌∷◌, ◌++◌, Bytes, codes, length, take,
}
use espcan_br.Http.Request.{find_subslice, content_length}

-- What the connection has for the next `read`: bytes, its end, or an error.
pub data Arrival : Type 0 where
  segment : Bytes → Arrival
  closed failed : Arrival

-- The request, nothing to answer, an error; or the arrivals end before the loop.
pub data Fetched : Type 0 where
  request : Bytes → Fetched
  nothing failure waiting : Fetched

abbrev pub buffer_len : ℕ
buffer_len = 1024

abbrev pub blank_line : Bytes
blank_line = codes "\r\n\r\n"

-- `need` is known and reached, or the buffer is full.
unfoldable pub is_done : Option ℕ → Bytes → Bool
is_done none got = leb buffer_len (length got)
is_done (some n) got = leb n (length got) || leb buffer_len (length got)

module _ (is_utf8 : Bytes → Bool) where
  -- `header_end` and `Content-Length`, at most the buffer; `usize` saturates far above that.
  unfoldable pub need_of : Bytes → Option ℕ
  need_of got = elim (find_subslice got blank_line) [
    | none ↦ none
    | some i ↦
        let header_end = i + 4 in
        let clen : ℕ = elim (content_length is_utf8 (take header_end got)) [
          | none ↦ 0
          | some n ↦ n
        ] in
        some (min (header_end + clen) buffer_len)
  ]

  unfoldable pub refresh : Option ℕ → Bytes → Option ℕ
  refresh (some n) got = some n
  refresh none got = need_of got

  -- The loop; `got` is `buffer[..pos]`. A read takes what fits behind it.
  unfoldable pub fetch_from : List Arrival → Option ℕ → Bytes → Fetched
  fetch_from [] need got = if is_done need got then request got else waiting
  fetch_from (failed ∷ more) need got = if is_done need got then request got else failure
  fetch_from (closed ∷ more) need got =
      if is_done need got then request got else if length got == 0 then nothing else request got
  fetch_from (segment bs ∷ more) need got = elim (is_done need got) [
    | true ↦ request got
    | false ↦
        let got' = got ++ take (buffer_len - length got) bs in
        fetch_from more (refresh need got') got'
  ]

  abbrev pub fetch : List Arrival → Fetched
  fetch arrivals = fetch_from arrivals none []
