-- ===== src/Tests/Bodies.antt =====
-- The theorems on the rewriting of locations and bodies at concrete inputs.
use konnector.Prelude.{
  ℕ, zero, suc, ◌≡◌, ◌≤◌, refl, ap, false, some, List, [], ◌∷◌, ◌++◌, arith, codes, length,
}
use konnector.Prelude.{none, some}
use konnector.PathRewrite.Body.{max_body_bytes, filter_body}
use konnector.PathRewrite.Stream.{
  stream, whole, finished, filter_body-bounded, stream-fits, stream-overflow,
}
use konnector.Tests.Data.{rewriting}

filter_body-bounded_example :
    length (filter_body (some (codes "<a>")) false rewriting).1.buffer ≤ max_body_bytes
filter_body-bounded_example = filter_body-bounded rewriting (some (codes "<a>")) false (omega arith)

abbrev page_chunks : List (List ℕ)
page_chunks = codes "<a href=\"/x\">" ∷ codes "</a>" ∷ []

-- The last chunk ends the stream.
stream-fits_example :
    stream rewriting page_chunks (some (codes "</p>"))
    ≡ finished (codes "/app") (whole page_chunks (some (codes "</p>")))
stream-fits_example =
    stream-fits rewriting page_chunks (some (codes "</p>")) (refl, refl) (omega arith)

-- So many zeros.
zeros : ℕ → List ℕ
zeros zero = []
zeros (suc n) = 0 ∷ zeros n

length-zeros : (n : ℕ) → length (zeros n) ≡ n
unfolding zeros
length-zeros zero = refl
length-zeros (suc n) = ap suc (length-zeros n)

abbrev long_chunk : List ℕ
long_chunk = zeros (suc max_body_bytes)

stream-overflow_example :
    (stream rewriting (page_chunks ++ long_chunk ∷ []) none ≡ long_chunk ++ whole [] none)
    × (stream rewriting page_chunks (some long_chunk) ≡ long_chunk)
stream-overflow_example =
    stream-overflow rewriting page_chunks long_chunk [] none (refl, refl) (omega arith)
      (omega (arith, length-zeros (suc max_body_bytes)))
