-- ===== src/Tests/Storage.antt =====
-- A service that holds one small file in a directory.
use terraform_provider_datab.Base.{
  zero, suc, ◌+◌, ap, ◌∙◌, code, eqb, if◌then◌else◌, ◌==◌, ℕ, ◌≡◌, refl, String, true, false, none,
  List, [], ◌∷◌, arith, take, drop, length,
}
use terraform_provider_datab.Common.Errors.{Result, ok}
use terraform_provider_datab.Common.Service.{Server}
use terraform_provider_datab.Storage.Dbfs.{
  FileInfo, Request, create_handle, add_block, close_handle, list_path, move_path, delete_path,
  read_block, get_status, make_dirs, Reply, block_size, add_blocks, write_and_close, create,
  add_each, recursive_add_paths, list_paths, read,
}
use terraform_provider_datab.Storage.Dbfs.Writing.{
  AreBlocks, blocks_onto, create-log, create-closes, create-succeeds,
}
use terraform_provider_datab.Storage.Dbfs.Reading.{read-content}

-- A coding in place of base64: for each byte as many letters as its value, and a space.
unfoldable letters : ℕ → String → String
letters zero s = String.◌∷◌ " " s
letters (suc n) s = String.◌∷◌ "a" (letters n s)

unfoldable encode : List ℕ → String
encode [] = ""
encode (b ∷ bytes) = letters b (encode bytes)

unfoldable decode_from : ℕ → String → List ℕ
decode_from n String.[] = []
decode_from n (String.◌∷◌ c s) =
    let next = n ∷ decode_from 0 s in
    let longer = decode_from (suc n) s in if eqb (code c) 32 then next else longer

abbrev decode : String → Result (List ℕ)
decode s = ok (decode_from 0 s)

decode_from-letters :
    (n m : ℕ) (s : String) → decode_from m (letters n s) ≡ (m + n) ∷ decode_from 0 s
unfolding decode_from letters
decode_from-letters zero m s = ap (λ k. k ∷ decode_from 0 s) (omega arith)
decode_from-letters (suc n) m s =
    decode_from-letters n (suc m) s ∙ ap (λ k. k ∷ decode_from 0 s) (omega arith)

decode-encode : (bytes : List ℕ) → decode_from 0 (encode bytes) ≡ bytes
unfolding encode decode_from
decode-encode [] = refl
decode-encode (b ∷ bytes) =
    decode_from-letters b 0 (encode bytes)
    ∙ ap (λ k. k ∷ decode_from 0 (encode bytes)) (omega arith)
    ∙ ap (λ t. b ∷ t) (decode-encode bytes)

abbrev content : List ℕ
content = 3 ∷ 1 ∷ 2 ∷ []

abbrev file : FileInfo
file = record { path = "/d/f"; is_dir = false; file_size = 3 }

abbrev directory : FileInfo
directory = record { path = "/d"; is_dir = true; file_size = 0 }

abbrev dbfs : Server Request Reply
dbfs log (create_handle path overwrite) = ok 9
dbfs log (add_block text h) = ok tt
dbfs log (close_handle h) = ok tt
dbfs log (list_path path) = ok (if path == "/" then directory ∷ file ∷ [] else file ∷ [])
dbfs log (move_path source target) = ok tt
dbfs log (delete_path path recursive) = ok tt
dbfs log (read_block path offset size) = ok (record {
  bytes_read = length (take size (drop offset content));
  data_text = encode (take size (drop offset content));
})
dbfs log (get_status path) = ok file
dbfs log (make_dirs path) = ok tt

abbrev written : List Request
written = (create dbfs encode 4 "/d/f" content true []).1

create_run : create dbfs encode 4 "/d/f" content true [] ≡ (ok tt, written)
unfolding create write_and_close add_blocks
create_run = refl

create-log_example :
    (h : ℕ) × (blocks : List (List ℕ)) × (dbfs [] (create_handle "/d/f" true) ≡ ok h)
    × AreBlocks dbfs encode block_size content blocks
    × (written ≡ close_handle h ∷ blocks_onto dbfs encode h blocks (create_handle "/d/f" true ∷ []))
create-log_example = create-log dbfs encode 4 "/d/f" content true [] written create_run

create-closes_example :
    (before : List Request) × ((create dbfs encode 4 "/d/f" content true []).1
      ≡ close_handle 9 ∷ before)
create-closes_example = create-closes dbfs encode 4 "/d/f" content true [] 9 refl

create-succeeds_example : (create dbfs encode 4 "/d/f" content true []).0 ≡ ok tt
create-succeeds_example =
    create-succeeds dbfs encode 4 "/d/f" content true [] 9 refl (λ before text. refl)
      (λ before. refl) (omega arith)

read-content_example :
    (log' : List Request) × (read dbfs decode 4 "/d/f" [] ≡ (content, none, log'))
read-content_example =
    read-content dbfs encode decode (λ bytes h. ap (λ t. ok t) (decode-encode bytes)) "/d/f" content
      (λ log offset size. refl) (omega arith, (omega arith, (omega arith, tt))) 4 [] (omega arith)

abbrev listing : List Request
listing = list_path "/d" ∷ list_path "/" ∷ []

list_run : list_paths dbfs 3 "/" true [] ≡ (ok (file ∷ file ∷ []), listing)
unfolding list_paths recursive_add_paths add_each
list_run = refl
