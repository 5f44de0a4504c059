-- ===== src/Storage/Dbfs/Writing.antt =====
-- The requests by which a file is written.
use terraform_provider_datab.Base.{
  ℕ, zero, suc, ◌≤◌, ◌<◌, ◌≡◌, refl, ap, ◌∙◌, sym, String, Bool, List, [], ◌∷◌, ◌++◌, All, inl, inr,
  arith, take, drop, length, take-append-drop, length-drop, length-take-le,
}
use terraform_provider_datab.Common.Errors.{Error, Result, ok, err, Result-cases}
use terraform_provider_datab.Common.Service.{Server}
use terraform_provider_datab.Storage.Dbfs.{
  Request, create_handle, add_block, close_handle, Reply, block_size, closing, add_blocks,
  write_and_close, create,
}

abbrev pub concat_blocks : List (List ℕ) → List ℕ
concat_blocks [] = []
concat_blocks (b ∷ more) = b ++ concat_blocks more

closing_ok : (r c : Result (Unit {0})) → closing r c ≡ ok tt → r ≡ ok tt
closing_ok r (err e) h = absurd (ground arith)
closing_ok r (ok u) h = h

module _ (server : Server Request Reply) (encode : List ℕ → String) where
  -- The log after one request for each block.
  abbrev pub blocks_onto : ℕ → List (List ℕ) → List Request → List Request
  blocks_onto h [] log = log
  blocks_onto h (b ∷ more) log = blocks_onto h more (add_block (encode b) h ∷ log)

  -- The content, cut into blocks that are not empty and hold at most `size` bytes.
  abbrev pub AreBlocks : ℕ → List ℕ → List (List ℕ) → Type 0
  AreBlocks size bytes blocks =
      (concat_blocks blocks ≡ bytes) × All (λ b. (1 ≤ length b) × (length b ≤ size)) blocks

  add_blocks-AreBlocks :
      (fuel size h : ℕ) (bytes : List ℕ) (log : List Request) (log' : List Request)
      → 1 ≤ size
      → add_blocks server encode fuel size h bytes log ≡ (ok tt, log')
      → (blocks : List (List ℕ)) × AreBlocks size bytes blocks × (log' ≡ blocks_onto h blocks log)
  unfolding add_blocks
  add_blocks-AreBlocks zero size h bytes log log' z q = absurd (ground arith)
  add_blocks-AreBlocks (suc fuel) size h [] log log' z q = ([], (refl, tt), ground arith)
  add_blocks-AreBlocks (suc fuel) zero h (b ∷ bytes) log log' z q = elim z [ ]
  add_blocks-AreBlocks (suc fuel) (suc size) h (b ∷ bytes) log log' z q =
      let first = take (suc size) (b ∷ bytes) in
      elim (Result-cases (server log (add_block (encode first) h))) [
        | inl (x, f) ↦ absurd (let k = rw (f, add_blocks) at q in ground arith)
        | inr (u, f) ↦
            let (blocks, (c, s), l) =
              add_blocks-AreBlocks fuel (suc size) h (drop size bytes)
                (add_block (encode first) h ∷ log) log' z (rw (f, add_blocks) at q) in
            (
              first ∷ blocks,
              (
                ap (λ t. first ++ t) c ∙ take-append-drop (suc size) (b ∷ bytes),
                ((omega arith, length-take-le (suc size) (b ∷ bytes)), s),
              ),
              l,
            )
      ]

  -- Fuel that is more than the length of the content is enough: a failure is one of the service's.
  add_blocks-fails :
      (fuel size h : ℕ) (bytes : List ℕ) (log : List Request) (e : Error) (log' : List Request)
      → 1 ≤ size
      → length bytes < fuel
      → add_blocks server encode fuel size h bytes log ≡ (err e, log')
      → (before : List Request) × (b : List ℕ) × (server before (add_block (encode b) h) ≡ err e)
  unfolding add_blocks
  add_blocks-fails zero size h bytes log e log' z enough q = absurd (omega (arith, enough))
  add_blocks-fails (suc fuel) size h [] log e log' z enough q = absurd (ground arith)
  add_blocks-fails (suc fuel) zero h (b ∷ bytes) log e log' z enough q = elim z [ ]
  add_blocks-fails (suc fuel) (suc size) h (b ∷ bytes) log e log' z enough q =
      elim (Result-cases (server log (add_block (encode (take (suc size) (b ∷ bytes))) h))) [
        | inl (x, f) ↦ (
          log,
          take (suc size) (b ∷ bytes),
          (let k = rw (f, add_blocks) at q in f ∙ ground arith),
        )
        | inr (u, f) ↦
            add_blocks-fails fuel (suc size) h (drop size bytes)
              (add_block (encode (take (suc size) (b ∷ bytes))) h ∷ log) e log' z
              (omega (arith, length-drop size bytes, enough)) (rw (f, add_blocks) at q)
      ]

  write_and_close-log :
      (fuel : ℕ) (bytes : List ℕ) (h : ℕ) (log log' : List Request)
      → write_and_close server encode fuel bytes h log ≡ (ok tt, log')
      → (blocks : List (List ℕ)) × AreBlocks block_size bytes blocks
        × (log' ≡ close_handle h ∷ blocks_onto h blocks log)
  unfolding write_and_close
  write_and_close-log fuel bytes h log log' q =
      let out = add_blocks server encode fuel block_size h bytes log in
      let f = closing_ok out.0 (server out.1 (close_handle h)) (ap (λ p. p.0) q) in
      let (blocks, a, l) =
        add_blocks-AreBlocks fuel block_size h bytes log out.1 (omega arith)
          (ap (λ t. (t, out.1)) f) in
      (blocks, a, sym (ap (λ p. p.1) q) ∙ ap (λ t. close_handle h ∷ t) l)

  -- A file that is written with success is written by creating the handle, by one request for each
  -- of the blocks that its content is cut into, in order, none empty and none larger than 1,000,000
  -- bytes, and by closing the handle. Each request goes to the handle that was created.
  pub create-log :
      (fuel : ℕ) (path : String) (bytes : List ℕ) (overwrite : Bool) (log log' : List Request)
      → create server encode fuel path bytes overwrite log ≡ (ok tt, log')
      → (h : ℕ) × (blocks : List (List ℕ)) × (server log (create_handle path overwrite) ≡ ok h)
        × AreBlocks block_size bytes blocks
        × (log' ≡ close_handle h ∷ blocks_onto h blocks (create_handle path overwrite ∷ log))
  unfolding create
  create-log fuel path bytes overwrite log log' q =
      elim (Result-cases (server log (create_handle path overwrite))) [
        | inl (x, f) ↦ absurd (let k = rw (f, create) at q in ground arith)
        | inr (h, f) ↦
            let (blocks, a, l) =
              write_and_close-log fuel bytes h (create_handle path overwrite ∷ log) log'
                (rw (f, create) at q) in
            (h, blocks, f, a, l)
      ]

  -- Once a handle is there it is closed by the last request, whether the blocks could be added or not.
  pub create-closes :
      (fuel : ℕ) (path : String) (bytes : List ℕ) (overwrite : Bool) (log : List Request) (h : ℕ)
      → server log (create_handle path overwrite) ≡ ok h
      → (before : List Request) × ((create server encode fuel path bytes overwrite log).1
          ≡ close_handle h ∷ before)
  unfolding create write_and_close
  create-closes fuel path bytes overwrite log h e = rw e (_, refl)

  -- Where the service accepts to create the handle, every block and every close, and the fuel is more
  -- than the length of the content, the writing succeeds.
  pub create-succeeds :
      (fuel : ℕ) (path : String) (bytes : List ℕ) (overwrite : Bool) (log : List Request) (h : ℕ)
      → server log (create_handle path overwrite) ≡ ok h
      → ((before : List Request) (text : String) → server before (add_block text h) ≡ ok tt)
      → ((before : List Request) → server before (close_handle h) ≡ ok tt)
      → length bytes < fuel
      → (create server encode fuel path bytes overwrite log).0 ≡ ok tt
  unfolding create write_and_close
  create-succeeds fuel path bytes overwrite log h e adds closes enough =
      let start = create_handle path overwrite ∷ log in
      let out = add_blocks server encode fuel block_size h bytes start in
      elim (Result-cases out.0) [
        | inl (x, f) ↦
            let (before, b, k) =
              add_blocks-fails fuel block_size h bytes start x out.1 (omega arith) enough
                (ap (λ t. (t, out.1)) f) in
            absurd (
              let c : ◌≡◌ {A = Result (Unit {0})} (ok tt) (err x) =
                sym (adds before (encode b)) ∙ k in
              ground arith)
        | inr (u, f) ↦ rw (e, closes out.1) f
      ]
