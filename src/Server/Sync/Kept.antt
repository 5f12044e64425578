-- ===== src/Server/Sync/Kept.antt =====
-- What a reload finds in a store over a map and a file.
use feature_flags_control_pl.Shared.{
  ℕ, ◌≡◌, refl, sym, ap, ◌∙◌, none, some, Option, List, [], ◌∷◌, ◌++◌, Str, lit, is_empty,
  has_prefix-append, Dict, lookup, All,
}
use feature_flags_control_pl.Flag.{FeatureFlag}
use feature_flags_control_pl.Store.Values.{ok}
use feature_flags_control_pl.Store.{Env, World, ConfigStore}
use feature_flags_control_pl.Store.Prefix.{filter_prefix, get_all_by_prefix}
use feature_flags_control_pl.Store.Prefix.Distinct.{
  filter_prefix-Distinct, All-of_lookup, lookup-filter_prefix, filter_prefix-found,
}
use feature_flags_control_pl.Server.{Codec, Server}
use feature_flags_control_pl.Server.Flags.{get_flag_handler}
use feature_flags_control_pl.Server.Flags.History.{
  Change, changed_all, specified_all, shown, get_flag-changed_all,
}
use feature_flags_control_pl.Server.Sync.{
  Listings, list_then, list_store, install, installed, load_in, load_from_store,
}
use feature_flags_control_pl.Server.Sync.Loaded.{Consistent, load_flags-lookup}
use feature_flags_control_pl.Server.Sync.Synced.{Named, Synced, CodedChange, changed_all-Synced}

abbrev listing : Str → ConfigStore → Dict Str
listing prefix cs = filter_prefix prefix cs.items []

abbrev listings : ConfigStore → Listings
listings cs = record {
  flags = listing (lit "flag:") cs;
  experiments = listing (lit "experiment:") cs;
  breakers = listing (lit "cb:") cs;
  limits = listing (lit "ratelimit:") cs;
}

Consistent-of_All : (c : Codec) (m : Dict Str) → All (λ (k, v). Named c k v) m → Consistent c m
Consistent-of_All c [] h = tt
Consistent-of_All c ((k, v) ∷ m) (first, h) = (first, Consistent-of_All c m h)

module _ {R : Type 0} (env : Env R) (c : Codec) where
  get_all_by_prefix-local :
      (fuel : ℕ) (cs : ConfigStore) (w : World R) (prefix : Str)
      → cs.redis_addr ≡ []
      → get_all_by_prefix env fuel cs w prefix ≡ some (w, ok (listing prefix cs))
  unfolding get_all_by_prefix is_empty
  get_all_by_prefix-local fuel cs w prefix local = rw local refl

  list_store-local :
      (fuel : ℕ) (cs : ConfigStore) (w : World R)
      → cs.redis_addr ≡ []
      → list_store env c fuel cs w ≡ some (w, ok (listings cs))
  unfolding list_store list_then
  list_store-local fuel cs w local =
      rw
        (
          get_all_by_prefix-local fuel cs w (lit "flag:") local,
          get_all_by_prefix-local fuel cs w (lit "experiment:") local,
          get_all_by_prefix-local fuel cs w (lit "cb:") local,
          get_all_by_prefix-local fuel cs w (lit "ratelimit:") local,
        )
        refl

  load_in-local :
      (fuel : ℕ) (s : Server R) (now : ℕ) (cs : ConfigStore)
      → cs.redis_addr ≡ []
      → load_in env c fuel s now (some cs) ≡ some (install env c s now (listings cs))
  unfolding load_in installed
  load_in-local fuel s now cs local = rw (load_in, list_store-local fuel cs s.world local) refl

  load_from_store-local :
      (fuel : ℕ) (s : Server R) (now : ℕ) (y : Synced c s)
      → load_from_store env c fuel s now ≡ some (install env c s now (listings y.cs))
  unfolding load_from_store
  load_from_store-local fuel s now y =
      ap (load_in env c fuel s now) y.held ∙ load_in-local fuel s now y.cs y.local

  listed-Consistent : (s : Server R) (y : Synced c s) → Consistent c (listing (lit "flag:") y.cs)
  listed-Consistent s y = Consistent-of_All c (listing (lit "flag:") y.cs) (
      All-of_lookup (λ (k, v). Named c k v) (listing (lit "flag:") y.cs)
        (filter_prefix-Distinct (lit "flag:") y.cs.items [] tt)
        (λ k v found.
          let (wanted, there) = filter_prefix-found (lit "flag:") k v y.cs.items y.distinct found in
          y.consistent k v there wanted))

  reloaded-flags :
      (s : Server R) (now : ℕ) (y : Synced c s) (name : Str)
      → lookup name (install env c s now (listings y.cs)).flags ≡ lookup name s.flags
  unfolding install
  reloaded-flags s now y name =
      load_flags-lookup c (listing (lit "flag:") y.cs) name
        (filter_prefix-Distinct (lit "flag:") y.cs.items [] tt) (listed-Consistent s y)
      ∙ ap (λ o. elim o as (λ x. Option FeatureFlag) [ none ↦ none | some v ↦ c.unmarshal_flag v ])
          (lookup-filter_prefix (lit "flag:") (lit "flag:" ++ name) y.cs.items y.distinct
            ∙ rw (has_prefix-append (lit "flag:") name) refl)
      ∙ sym (y.agrees name)

  -- Without a Redis server, and from a state in which the flags in memory are those of the store: after
  -- any requests that post, update or delete flags that the JSON codec gives back, a reload succeeds,
  -- and every flag is answered from the plain map to which the same changes were made, as it was before
  -- the reload.
  pub reload-changed_all :
      (chs : List Change) (s : Server R) (fuel now : ℕ)
      → Synced c s
      → All (CodedChange env c) chs
      → (s' : Server R) × (load_from_store env c fuel (changed_all env c chs s) now ≡ some s')
        × ((name : Str)
            → (get_flag_handler env c s' name).1
              ≡ shown (specified_all chs (λ k. lookup k s.flags) name))
  unfolding get_flag_handler
  reload-changed_all chs s fuel now y coded =
      let t = changed_all env c chs s in
      let z = changed_all-Synced env c chs s y coded in
      (
        install env c t now (listings z.cs),
        load_from_store-local fuel t now z,
        λ name. ap shown (reloaded-flags t now z name) ∙ get_flag-changed_all env c chs s name,
      )
