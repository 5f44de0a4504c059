-- ===== src/Storage/Dbfs.antt =====
-- storage/dbfs.go: the DBFS API. The bytes of a file are a list of numbers. The base64 coding of the
-- Go library and the service are parameters.
pub mod Writing
pub mod Reading
pub mod Listing
use terraform_provider_datab.Base.{
  ℕ, zero, suc, ◌+◌, String, Bool, true, false, ◌||◌, Option, none, some, List, [], ◌∷◌, ◌++◌,
  if◌then◌else◌, ltb, eqb, take, drop,
}
use terraform_provider_datab.Common.Errors.{Error, other, Result, ok, err}
use terraform_provider_datab.Common.Service.{Server, Call, pure, fail, send, ◌>>=◌, ◌>>◌, handle}

pub record FileInfo : Type 0 where
  pub path : String
  pub is_dir : Bool
  pub file_size : ℕ

pub record ReadResponse : Type 0 where
  pub bytes_read : ℕ
  pub data_text : String

pub data Request : Type 0 where
  create_handle : (path : String) (overwrite : Bool) → Request
  add_block : (text : String) (handle_id : ℕ) → Request
  close_handle : (handle_id : ℕ) → Request
  list_path : (path : String) → Request
  move_path : (source_path destination_path : String) → Request
  delete_path : (path : String) (recursive : Bool) → Request
  read_block : (path : String) (offset length : ℕ) → Request
  get_status : (path : String) → Request
  make_dirs : (path : String) → Request

abbrev pub Reply : Request → Type 0
Reply (create_handle p o) = ℕ
Reply (add_block t h) = Unit
Reply (close_handle h) = Unit
Reply (list_path p) = List FileInfo
Reply (move_path s t) = Unit
Reply (delete_path p r) = Unit
Reply (read_block p o l) = ReadResponse
Reply (get_status p) = FileInfo
Reply (make_dirs p) = Unit

abbrev pub block_size : ℕ
block_size = 1000000

-- `err` after the deferred call: its error, if it has one, takes the place of the method's.
abbrev pub closing : Result (Unit {0}) → Result (Unit {0}) → Result (Unit {0})
closing r (err e) = err e
closing r (ok u) = r

abbrev pub end_with : Result (Unit {0}) → Call Request (Unit {0})
end_with r log = (r, log)

-- The rest of the loop of `Read`, after a call of `read`.
abbrev pub after_read :
    ℕ
    → List ℕ
    → Result (ℕ × List ℕ) × List Request
    → (List ℕ → List Request → List ℕ × Option Error × List Request)
    → List ℕ × Option Error × List Request
after_read size content (err e, l) again = (content, some e, l)
after_read size content (ok (n, bytes), l) again =
    if eqb n 0 || ltb n size then (content ++ bytes, none, l) else again (content ++ bytes) l

module _ (server : Server Request Reply) where
  module _ (encode : List ℕ → String) where
    -- The loop of `Create`, on fuel: every round but the last takes a byte off the buffer.
    unfoldable pub add_blocks : ℕ → ℕ → ℕ → List ℕ → Call Request (Unit {0})
    add_blocks zero size h bytes = fail (other "out of fuel")
    add_blocks (suc fuel) size h [] = pure tt
    add_blocks (suc fuel) size h (b ∷ bytes) =
        send server (add_block (encode (take size (b ∷ bytes))) h)
        >> add_blocks fuel size h (drop size (b ∷ bytes))

    -- What is done with the handle, the deferred call included.
    unfoldable pub write_and_close : ℕ → List ℕ → ℕ → Call Request (Unit {0})
    write_and_close fuel bytes h =
        handle (add_blocks fuel block_size h bytes)
          (λ r. handle (send server (close_handle h)) (λ c. end_with (closing r c)))

    -- `Create`
    unfoldable pub create : ℕ → String → List ℕ → Bool → Call Request (Unit {0})
    create fuel path bytes overwrite =
        send server (create_handle path overwrite) >>= write_and_close fuel bytes

  -- `list`
  abbrev pub list_files : String → Call Request (List FileInfo)
  list_files path = send server (list_path path)

  -- The loop of `recursiveAddPaths`; `inner` is the call for a directory.
  unfoldable pub add_each :
      (String → List FileInfo → Call Request (List FileInfo))
      → List FileInfo
      → List FileInfo
      → Call Request (List FileInfo)
  add_each inner [] path_list = pure path_list
  add_each inner (v ∷ more) path_list =
      if v.is_dir
      then inner v.path path_list >>= (λ l. add_each inner more l)
      else add_each inner more (path_list ++ v ∷ [])

  -- `recursiveAddPaths`, on fuel: the depth of the directories.
  unfoldable pub recursive_add_paths : ℕ → String → List FileInfo → Call Request (List FileInfo)
  recursive_add_paths zero path path_list = fail (other "out of fuel")
  recursive_add_paths (suc fuel) path path_list =
      list_files path >>= (λ files. add_each (recursive_add_paths fuel) files path_list)

  -- `List`
  unfoldable pub list_paths : ℕ → String → Bool → Call Request (List FileInfo)
  list_paths fuel path true = recursive_add_paths fuel path []
  list_paths fuel path false = list_files path

  -- `Move`
  abbrev pub move : String → String → Call Request (Unit {0})
  move source target = send server (move_path source target)

  -- `Delete`
  abbrev pub delete : String → Bool → Call Request (Unit {0})
  delete path recursive = send server (delete_path path recursive)

  module _ (decode : String → Result (List ℕ)) where
    abbrev pub decoded : ReadResponse → Call Request (ℕ × List ℕ)
    decoded r log = elim (decode r.data_text) [
      | err e ↦ (err e, log)
      | ok bytes ↦ (ok (r.bytes_read, bytes), log)
    ]

    -- `read` and `readString`
    abbrev pub read_at : String → ℕ → ℕ → Call Request (ℕ × List ℕ)
    read_at path offset length = send server (read_block path offset length) >>= decoded

    -- The loop of `Read`, on fuel, with the content so far. The content is returned with an error, too.
    unfoldable pub read_loop :
        ℕ → ℕ → String → ℕ → List ℕ → List Request → List ℕ × Option Error × List Request
    read_loop zero size path offset content log = (content, some (other "out of fuel"), log)
    read_loop (suc fuel) size path offset content log =
        after_read size content (read_at path offset size log)
          (λ c l. read_loop fuel size path (offset + size) c l)

    -- `Read`
    abbrev pub read : ℕ → String → List Request → List ℕ × Option Error × List Request
    read fuel path log = read_loop fuel block_size path 0 [] log

  -- `Status`
  abbrev pub status : String → Call Request FileInfo
  status path = send server (get_status path)

  -- `Mkdirs`
  abbrev pub mkdirs : String → Call Request (Unit {0})
  mkdirs path = send server (make_dirs path)
