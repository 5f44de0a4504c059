-- ===== src/Tests/Pairs.antt =====
-- The pair of a secret's scope and key, whose separator is `|||`.
use terraform_provider_datab.Base.{◌≡◌, ◌≢◌, eq_iff, refl, inl, List, [], ◌∷◌, arith, lookup}
use terraform_provider_datab.Common.Errors.{ok}
use terraform_provider_datab.Common.Service.{Server}
use terraform_provider_datab.Common.Pair.{
  Pair, new_pair_separated_id, ResourceData, get, pack, unpack, Request, create_context,
  read_context, delete_context, Reply, read_binding, create_binding, delete_binding,
}
use terraform_provider_datab.Common.Pair.Packing.{Separates, unpack-pack, create_binding-names}

abbrev scope_and_key : Pair
scope_and_key = new_pair_separated_id "scope" "key" "|||"

abbrev secret : ResourceData
secret = record { id = ""; attributes = ("scope", "s") ∷ ("key", "k") ∷ [] }

separated : Separates "|||" (get secret "scope")
unfolding lookup
separated = ("|", "||", refl, (omega arith, tt))

has_scope : get secret "scope" ≢ ""
unfolding lookup
has_scope = ground (arith, eq_iff "s" "")

has_key : get secret "key" ≢ ""
unfolding lookup
has_key = ground (arith, eq_iff "k" "")

unpack-pack_example :
    ((unpack (λ s. ok s) scope_and_key (pack scope_and_key secret)).0
      ≡ ok (get secret "scope", get secret "key"))
    × ((unpack (λ s. ok s) scope_and_key (pack scope_and_key secret)).1.id
        ≡ (pack scope_and_key secret).id)
unpack-pack_example =
    unpack-pack (λ s. ok s) scope_and_key secret separated has_scope has_key (inl refl)

abbrev accepts : Server Request Reply
accepts log r = ok tt

create_run :
    create_binding (λ s. ok s) accepts scope_and_key secret []
    ≡ (ok (pack scope_and_key secret), create_context (get secret "scope") (get secret "key") ∷ [])
unfolding create_binding lookup
create_run = refl

abbrev created : List Request
created = create_context (get secret "scope") (get secret "key") ∷ []

create_binding-names_example :
    (created ≡ create_context (get secret "scope") (get secret "key") ∷ [])
    × ((read_binding (λ s. ok s) accepts scope_and_key (pack scope_and_key secret) created).1
        ≡ read_context (get secret "scope") (get secret "key") ∷ created)
    × ((delete_binding (λ s. ok s) accepts scope_and_key (pack scope_and_key secret) created).1
        ≡ delete_context (get secret "scope") (get secret "key") ∷ created)
create_binding-names_example =
    create_binding-names (λ s. ok s) accepts scope_and_key secret (pack scope_and_key secret) []
      created separated refl create_run
