-- ===== src/Server/Flags/History.antt =====
-- Any sequence of requests that change flags, against a plain map of flags.
use feature_flags_control_pl.Shared.{
  ◌≡◌, refl, ap, ◌∙◌, Option, none, some, List, [], ◌∷◌, Str, lit, str_eq, is_empty, lookup,
  lookup-insert, lookup-delete, if◌then◌else◌,
}
use feature_flags_control_pl.Flag.{FeatureFlag}
use feature_flags_control_pl.Store.{Env}
use feature_flags_control_pl.Server.{
  Codec, Server, Response, Decoded, parsed, empty_body, malformed, json_ok, json_error, one_flag,
}
use feature_flags_control_pl.Server.Flags.{
  zero_flag, named, put_flag, create_flag, create_flag_handler, get_flag_handler,
  update_flag_handler, delete_flag_handler,
}
use feature_flags_control_pl.Server.Flags.Handled.{put_flag-flags, delete_flag-flags}

-- The three requests, with what the decoder made of the body.
pub data Change : Type 0 where
  post : Decoded FeatureFlag → Change
  update : Str → Decoded FeatureFlag → Change
  remove : Str → Change

-- A plain map of flags: what stands under each name.
abbrev pub FlagMap : Type 0
FlagMap = Str → Option FeatureFlag

abbrev pub assigned : Str → Option FeatureFlag → FlagMap → FlagMap
assigned name o m other = if str_eq name other then o else m other

-- What a change does to the plain map. A refused body changes nothing; an empty one posts the flag
-- "unnamed" and is refused for an update, which takes its name from the path.
pub specified : Change → FlagMap → FlagMap
specified (post (parsed f)) m = assigned (named f).name (some (named f)) m
specified (post empty_body) m = assigned (lit "unnamed") (some (named zero_flag)) m
specified (post (malformed f)) m = m
specified (update name (parsed f)) m = assigned name (some (record f { name = name })) m
specified (update name empty_body) m = m
specified (update name (malformed f)) m = m
specified (remove name) m = assigned name none m

pub specified_all : List Change → FlagMap → FlagMap
specified_all [] m = m
specified_all (ch ∷ chs) m = specified_all chs (specified ch m)

-- The answer to a question for a flag.
abbrev pub shown : Option FeatureFlag → Response
shown none = json_error (lit "flag not found") 404
shown (some f) = json_ok (one_flag f)

module _ {R : Type 0} (env : Env R) (c : Codec) where
  unfoldable pub changed : Change → Server R → Server R
  changed (post body) s = (create_flag_handler env c s body).0
  changed (update name body) s = (update_flag_handler env c s name body).0
  changed (remove name) s = (delete_flag_handler env c s name).0

  unfoldable pub changed_all : List Change → Server R → Server R
  changed_all [] s = s
  changed_all (ch ∷ chs) s = changed_all chs (changed ch s)

  put_flag-lookup :
      (s : Server R) (name other : Str) (f : FeatureFlag)
      → lookup other (put_flag env c s name f).flags
        ≡ assigned name (some f) (λ k. lookup k s.flags) other
  put_flag-lookup s name other f =
      ap (lookup other) (put_flag-flags env c s name f) ∙ lookup-insert name other f s.flags

  changed-lookup :
      (ch : Change) (s : Server R) (other : Str)
      → lookup other (changed ch s).flags ≡ specified ch (λ k. lookup k s.flags) other
  unfolding changed specified create_flag_handler create_flag update_flag_handler named is_empty
  changed-lookup (post (parsed f)) s other = put_flag-lookup s (named f).name other (named f)
  changed-lookup (post empty_body) s other =
      put_flag-lookup s (lit "unnamed") other (named zero_flag)
  changed-lookup (post (malformed f)) s other = refl
  changed-lookup (update name (parsed f)) s other =
      put_flag-lookup s name other (record f { name = name })
  changed-lookup (update name empty_body) s other = refl
  changed-lookup (update name (malformed f)) s other = refl
  changed-lookup (remove name) s other =
      ap (lookup other) (delete_flag-flags env c s name) ∙ lookup-delete name other s.flags

  -- The plain map depends on nothing but what stands under each name.
  specified-same :
      (ch : Change) (m m' : FlagMap)
      → ((k : Str) → m k ≡ m' k)
      → (k : Str) → specified ch m k ≡ specified ch m' k
  unfolding specified
  specified-same (post (parsed f)) m m' h k = rw (h k) refl
  specified-same (post empty_body) m m' h k = rw (h k) refl
  specified-same (post (malformed f)) m m' h k = h k
  specified-same (update name (parsed f)) m m' h k = rw (h k) refl
  specified-same (update name empty_body) m m' h k = h k
  specified-same (update name (malformed f)) m m' h k = h k
  specified-same (remove name) m m' h k = rw (h k) refl

  changed_all-lookup :
      (chs : List Change) (s : Server R) (m : FlagMap)
      → ((k : Str) → lookup k s.flags ≡ m k)
      → (k : Str) → lookup k (changed_all chs s).flags ≡ specified_all chs m k
  unfolding changed_all specified_all
  changed_all-lookup [] s m h k = h k
  changed_all-lookup (ch ∷ chs) s m h k =
      changed_all-lookup chs (changed ch s) (specified ch m)
        (λ j. changed-lookup ch s j ∙ specified-same ch (λ i. lookup i s.flags) m h j) k

  -- After any requests that post, update or delete flags, with bodies that decode or not and whether or
  -- not the store takes the writes, a question for a flag is answered from the plain map to which the
  -- same changes were made.
  pub get_flag-changed_all :
      (chs : List Change) (s : Server R) (name : Str)
      → (get_flag_handler env c (changed_all chs s) name).1
        ≡ shown (specified_all chs (λ k. lookup k s.flags) name)
  unfolding get_flag_handler
  get_flag-changed_all chs s name =
      ap shown (changed_all-lookup chs s (λ k. lookup k s.flags) (λ k. refl) name)
