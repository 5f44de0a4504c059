-- ===== src/Storage/Dbfs/Reading.antt =====
-- Reading a file gives its content.
use mathlib.Core.List.{append_assoc}
use terraform_provider_datab.Base.{
  ℕ, zero, suc, ◌+◌, ◌≤◌, ◌<◌, ◌≡◌, refl, ap, ◌∙◌, sym, String, true, false, ◌||◌, none, List, [],
  ◌∷◌, ◌++◌, arith, take, drop, length, All, take-append-drop, length-drop, inl, inr, Bool-cases,
  ltb, eqb,
}
use terraform_provider_datab.Common.Errors.{Result, ok}
use terraform_provider_datab.Common.Service.{Server}
use terraform_provider_datab.Storage.Dbfs.{
  Request, read_block, Reply, block_size, decoded, read_at, read_loop, read,
}

length-take-min : (n : ℕ) (xs : List ℕ) → n ≤ length xs → length (take n xs) ≡ n
length-take-min zero xs h = refl
length-take-min (suc n) [] h = omega (arith, h)
length-take-min (suc n) (x ∷ xs) h = ap suc (length-take-min n xs (omega (arith, h)))

take-all : (n : ℕ) (xs : List ℕ) → length xs ≤ n → take n xs ≡ xs
take-all zero [] h = refl
take-all zero (x ∷ xs) h = absurd (omega (arith, h))
take-all (suc n) [] h = refl
take-all (suc n) (x ∷ xs) h = ap (λ t. x ∷ t) (take-all n xs (omega (arith, h)))

-- Each number is a byte.
abbrev pub IsBytes : List ℕ → Type 0
IsBytes bytes = All (λ b. b < 256) bytes

take-IsBytes : (n : ℕ) (xs : List ℕ) → IsBytes xs → IsBytes (take n xs)
take-IsBytes zero xs h = tt
take-IsBytes (suc n) [] h = tt
take-IsBytes (suc n) (x ∷ xs) (p, h) = (p, take-IsBytes n xs h)

drop-IsBytes : (n : ℕ) (xs : List ℕ) → IsBytes xs → IsBytes (drop n xs)
drop-IsBytes zero xs h = h
drop-IsBytes (suc n) [] h = tt
drop-IsBytes (suc n) (x ∷ xs) (p, h) = drop-IsBytes n xs h

drop_nil : (n : ℕ) → drop n (let e : List ℕ = [] in e) ≡ []
drop_nil zero = refl
drop_nil (suc n) = refl

drop-drop : (n m : ℕ) (xs : List ℕ) → drop n (drop m xs) ≡ drop (m + n) xs
drop-drop n zero xs = ap (λ k. drop k xs) (omega arith)
drop-drop n (suc m) [] = drop_nil n ∙ sym (drop_nil (suc m + n))
drop-drop n (suc m) (x ∷ xs) =
    let e : suc (m + n) ≡ suc m + n = omega arith in drop-drop n m xs ∙ ap (λ k. drop k (x ∷ xs)) e

last_block : (n size : ℕ) → ltb n size ≡ true → (eqb n 0 || ltb n size) ≡ true
last_block n size h = ground arith

full_block : (size : ℕ) → 1 ≤ size → (eqb size 0 || ltb size size) ≡ false
full_block size z = ground arith

module _ (server : Server Request Reply) (encode : List ℕ → String)
    (decode : String → Result (List ℕ)) where
  -- The service holds the file at the path: it answers with the bytes from the offset on, at most as
  -- many as are asked for, and their number.
  abbrev pub Holds : String → List ℕ → Type 0
  Holds path content =
      (log : List Request) (offset size : ℕ)
      → server log (read_block path offset size)
        ≡ ok (record {
          bytes_read = length (take size (drop offset content));
          data_text = encode (take size (drop offset content));
        })

  -- Bytes that are encoded are decoded to the same bytes.
  abbrev pub RoundTrips : Type 0
  RoundTrips = (bytes : List ℕ) → IsBytes bytes → decode (encode bytes) ≡ ok bytes

  module _ (trips : RoundTrips) (path : String) (content : List ℕ) (holds : Holds path content)
      (are_bytes : IsBytes content) where
    decoded_block :
        (offset size : ℕ)
        → decode (encode (take size (drop offset content))) ≡ ok (take size (drop offset content))
    decoded_block offset size =
        trips (take size (drop offset content))
          (take-IsBytes size (drop offset content) (drop-IsBytes offset content are_bytes))

    read_at-Holds :
        (offset size : ℕ) (log : List Request)
        → read_at server decode path offset size log ≡ (
          ok (length (take size (drop offset content)), take size (drop offset content)),
          read_block path offset size ∷ log,
        )
    read_at-Holds offset size log =
        rw (holds log offset size, decoded, decoded_block offset size) refl

    read_loop-full :
        (fuel size offset : ℕ) (so_far : List ℕ) (log : List Request)
        → 1 ≤ size
        → size ≤ length (drop offset content)
        → read_loop server decode (suc fuel) size path offset so_far log
          ≡ read_loop server decode fuel size path
              (offset + size)
              (so_far ++ take size (drop offset content))
              (read_block path offset size ∷ log)
    unfolding read_loop
    read_loop-full fuel size offset so_far log z long =
        let full = length-take-min size (drop offset content) long in
        rw (read_at-Holds offset size log, full, full_block size z) refl

    read_loop-Holds :
        (fuel size offset : ℕ) (so_far : List ℕ) (log : List Request)
        → 1 ≤ size
        → length (drop offset content) < fuel
        → (log' : List Request) × (read_loop server decode fuel size path offset so_far log
            ≡ (so_far ++ drop offset content, none, log'))
    unfolding read_loop
    read_loop-Holds zero size offset so_far log z enough = absurd (omega (arith, enough))
    read_loop-Holds (suc fuel) size offset so_far log z enough =
        let rest = drop offset content in
        elim (Bool-cases (ltb (length rest) size)) [
          | inl e ↦
              let all = take-all size rest (ground arith) in
              (
                read_block path offset size ∷ log,
                rw (read_at-Holds offset size log, all, last_block (length rest) size e) refl,
              )
          | inr e ↦
              let l = read_block path offset size ∷ log in
              let long : size ≤ length rest = ground arith in
              let next = drop-drop size offset content in
              let (log', h) =
                read_loop-Holds fuel size (offset + size) (so_far ++ take size rest) l z
                  (omega (arith, ap length next, length-drop size rest, z, enough, long)) in
              (
                log',
                read_loop-full fuel size offset so_far log z long
                    ∙ h
                    ∙ ap (λ t. (t, none, log'))
                        (append_assoc so_far (take size rest) (drop (offset + size) content)
                          ∙ ap (λ t. so_far ++ t)
                              (ap (λ t. take size rest ++ t) (sym next)
                                ∙ take-append-drop size rest)),
              )
        ]

    -- Where the service holds a file and base64 texts are decoded to what was encoded, reading it
    -- gives the content of the file and no error, with fuel that is more than the content's length.
    pub read-content :
        (fuel : ℕ) (log : List Request)
        → length content < fuel
        → (log' : List Request) × (read server decode fuel path log ≡ (content, none, log'))
    read-content fuel log enough = read_loop-Holds fuel block_size 0 [] log (omega arith) enough
