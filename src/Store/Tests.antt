-- ===== src/Store/Tests.antt =====
-- The store at concrete inputs, with small stand-ins for the server and the codec.
use feature_flags_control_pl.Shared.{
  length, ℕ, zero, suc, ◌≡◌, refl, true, Option, none, some, List, [], ◌∷◌, ◌++◌, Str, lit, arith,
  Dict, lookup, insert, str_eq, is_empty, Bool-cases, inl, inr, if◌then◌else◌, ap,
}
use mathlib.Core.Bool.{false≢true}
use feature_flags_control_pl.Store.Values.{
  number, nothing, Value, text, items, nil, cons, ok, texts,
}
use feature_flags_control_pl.Store.{Env, World, ConfigStore, new_config_store, store_set, store_get}
use feature_flags_control_pl.Store.History.{
  Operation, put, remove, specified_all, read, applied, applied_all, store_get-applied_all,
  reopened-applied_all,
}
use feature_flags_control_pl.Shared.Int.{pos}
use feature_flags_control_pl.Store.Resp.{done, read_resp, command_bytes}
use feature_flags_control_pl.Store.Resp.Sent.{
  count, sent, Fits, arrays, read_resp-sent, read_resp-command,
}
use feature_flags_control_pl.Store.Resp.Ends.{Ends, read_resp-Ends}
use feature_flags_control_pl.Store.Prefix.{get_all_by_prefix}
use feature_flags_control_pl.Store.Prefix.Pages.{
  Serves, last_page, more_pages, Gets, listed, concat, get_all_by_prefix-pages,
}

abbrev page_answer : Str → Str → Value
page_answer cursor key = items (cons (text cursor) (cons (items (cons (text key) nil)) nil))

-- A server that answers with two pages and then with the value of the one key it has.
abbrev two_pages : ℕ → List Str → ℕ × Option Value
two_pages zero parts = (1, some (page_answer (lit "7") (lit "flag:a")))
two_pages (suc zero) parts = (2, some (page_answer (lit "0") (lit "flag:b")))
two_pages (suc (suc n)) (verb ∷ key ∷ parts) =
    (suc (suc n), some (if str_eq (lit "flag:a") key then text (lit "1") else nothing))
two_pages (suc (suc n)) parts = (suc (suc n), none)

abbrev one_entry : Dict Str
one_entry = (lit "flag:a", lit "1") ∷ []

-- The codec gives `one_entry` back for every text.
abbrev env : Env ℕ
env = record { command = two_pages; marshal_map = λ m. lit "{}"; decode_map = λ s. some one_entry }

abbrev world : World ℕ
world = record { disk = record { files = []; writable = true }; redis = 0 }

abbrev after_scan : World ℕ
after_scan = record world { redis = 2 }

abbrev file_store : ConfigStore
file_store = record { items = []; file_path = lit "data/config.json"; redis_addr = [] }

abbrev redis_store : ConfigStore
redis_store = record { items = []; file_path = []; redis_addr = lit "redis:6379" }

abbrev pages : List (List Str)
pages = (lit "flag:a" ∷ []) ∷ (lit "flag:b" ∷ []) ∷ []

-- The scan of the two pages.
two_pages_served : Serves env redis_store (lit "flag:" ++ lit "*") 2 0 (lit "0") pages
unfolding str_eq texts
two_pages_served =
    more_pages (lit "flag:a" ∷ []) (λ e. false≢true (ap (str_eq (lit "0")) e)) refl
      (last_page (lit "flag:b" ∷ []) refl)

two_pages_get : Gets env redis_store 2 one_entry
unfolding lookup
two_pages_get key = elim (Bool-cases (str_eq (lit "flag:a") key)) [
  | inl same ↦ rw same refl
  | inr other ↦ rw other refl
]

get_all_by_prefix-pages_example :
    (out : Dict Str) × (get_all_by_prefix env 2 redis_store world (lit "flag:")
      ≡ some (after_scan, ok out))
    × ((k : Str) → lookup k out ≡ (if listed k (concat pages) then lookup k one_entry else none))
unfolding is_empty
get_all_by_prefix-pages_example =
    get_all_by_prefix-pages env redis_store refl (lit "flag:") one_entry 2 world pages 2
      two_pages_served two_pages_get (omega arith)

-- An array of a text, a missing value and a number.
abbrev answer : Value
answer = items (cons (text (lit "a")) (cons nothing (cons (number (pos 12)) nil)))

read_resp-sent_example : read_resp 2 (sent answer (lit "+OK")) ≡ done answer (lit "+OK")
unfolding Fits arrays count
read_resp-sent_example =
    read_resp-sent answer (lit "+OK") 2 (omega arith, (omega arith, (tt, (omega arith, tt))))
      (omega arith)

read_resp-command_example :
    read_resp 2 (command_bytes (lit "GET" ∷ lit "k" ∷ []) [])
    ≡ done (items (texts (lit "GET" ∷ lit "k" ∷ []))) []
read_resp-command_example =
    read_resp-command (lit "GET" ∷ lit "k" ∷ []) [] 2 (omega arith) (omega arith, (omega arith, tt))
      (omega arith)

read_resp-Ends_example : Ends (length (lit "*1")) (read_resp 3 (lit "*1"))
read_resp-Ends_example = read_resp-Ends 3 (lit "*1") (omega arith)

abbrev edits : List Operation
edits = put (lit "k") (lit "v") ∷ remove (lit "k") ∷ put (lit "flag:a") (lit "1") ∷ []

store_get-applied_all_example :
    (store_get env (applied_all env edits (file_store, world)).0 world (lit "flag:a")).1
    ≡ read (lit "flag:a") (specified_all edits (λ k. lookup k file_store.items) (lit "flag:a"))
store_get-applied_all_example =
    store_get-applied_all env edits file_store world world (lit "flag:a") refl

reopened-applied_all_example :
    let final =
      applied_all env
        (put (lit "flag:a") (lit "0") ∷ put (lit "flag:a") (lit "1") ∷ [])
        (file_store, world) in
    (store_get env (new_config_store env file_store.file_path [] final.1).1 world (lit "flag:a")).1
    ≡ read (lit "flag:a") (
        specified_all
          (put (lit "flag:a") (lit "0") ∷ put (lit "flag:a") (lit "1") ∷ [])
          (λ k. lookup k file_store.items)
          (lit "flag:a"))
unfolding applied applied_all store_set insert str_eq is_empty
reopened-applied_all_example =
    reopened-applied_all env (put (lit "flag:a") (lit "0")) (put (lit "flag:a") (lit "1") ∷ [])
      file_store world world (lit "flag:a") one_entry refl (λ e. cc) refl refl (λ k. refl)
