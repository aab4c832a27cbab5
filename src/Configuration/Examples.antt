-- ===== src/Configuration/Examples.antt =====
-- A configuration in json, and one on a redis server in memory.

use mathlib.Core.Logic.{◌↔◌}
use stolos.Prelude.{
  ◌≡◌, refl, true, none, some, List, [], ◌∷◌, Text, Dict, lookup, txt, starts_with, if◌then◌else◌,
}
use stolos.Jobs.Actions.{ok, raised, key_error}
use stolos.Configuration.{
  Data, scalar, list, dict, nil, cons, Fields, end, field, keys, same_mapping, to_dict,
}
use stolos.Configuration.Contents.{plain, same_mapping-to_dict}
use stolos.Configuration.RedisConfig.{
  Client, RedisMapping, fresh, decode, get_item, AllPrefixed, get_item_uncached,
}

abbrev word : Text → Data Text
word t = scalar t

abbrev conf : Fields Text
conf =
    field (txt "app_name") (list (cons (word (txt "a")) nil))
      (field (txt "date") (word (txt "all")) end)

abbrev other : Fields Text
other =
    field (txt "app_name") (list (cons (word (txt "b")) nil))
      (field (txt "date") (word (txt "1")) end)

same_mapping-to_dict_example :
    ((same_mapping conf other ≡ true) ↔ (keys other ≡ keys conf))
    × (plain (to_dict conf) ≡ some (dict conf))
    × ((to_dict conf ≡ to_dict other) ↔ (conf ≡ other))
same_mapping-to_dict_example = same_mapping-to_dict conf other

abbrev hash_at : Text → Dict (Dict Text) → Dict Text
hash_at key server = elim (lookup key server) [ none ↦ [] | some hash ↦ hash ]

abbrev with_prefix : Text → Dict (Dict Text) → List Text
with_prefix prefix [] = []
with_prefix prefix ((key, hash) ∷ server) =
    let rest = with_prefix prefix server in if starts_with prefix key then key ∷ rest else rest

abbrev fields_of : Dict Text → Fields Text
fields_of [] = end
fields_of ((key, value) ∷ hash) = field key (word value) (fields_of hash)

abbrev client : Client Text
client = record {
  Server = Dict (Dict Text);
  hgetall = hash_at;
  keys_from = with_prefix;
  evaluate = λ hash. ok (fields_of hash);
}

abbrev server : Dict (Dict Text)
server = (txt "stolos/a", (txt "bash_cmd", txt "echo") ∷ []) ∷ []

get_item_uncached_example :
    let self : RedisMapping Text =
      (get_item client (txt "a") (fresh client (txt "stolos/")) server).1 in
    let (value, self') = get_item client (txt "a") self [] in
    (value ≡ raised key_error) × AllPrefixed client (txt "stolos/") self'.cache
unfolding get_item decode
get_item_uncached_example =
    get_item_uncached client (txt "a")
      (get_item client (txt "a") (fresh client (txt "stolos/")) server).1 [] (refl, tt) refl
