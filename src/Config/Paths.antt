-- ===== src/Config/Paths.antt =====
-- `path/filepath` on Unix: `IsAbs` and `Clean`, over the elements between the slashes.
use Prim.Native.Char.{code}
use text.Mathlib.Text.{starts_with}
use eventframed.Prelude.{
  String, concat, Bool, true, false, not, ◌&&◌, ◌||◌, List, [], ◌∷◌, ◌≡◌, refl, str_eq, str_mem,
  if◌then◌else◌, ◌==◌,
}

-- strings.HasPrefix(value, prefix)
unfoldable pub has_prefix : String → String → Bool
has_prefix value prefix = starts_with value prefix

-- filepath.IsAbs
unfoldable pub is_abs : String → Bool
unfolding has_prefix
is_abs path = has_prefix path "/"

-- The elements, `part` being the one that is read.
split_at_slash : String → String → List String
split_at_slash part String.[] = part ∷ []
split_at_slash part (String.◌∷◌ c rest) =
    let next = split_at_slash "" rest in
    let more = split_at_slash (concat part (String.◌∷◌ c String.[])) rest in
    if code c == b'/' then part ∷ next else more

-- The stack of the elements kept so far, the last one first.
clean_elements : Bool → List String → List String → List String
clean_elements rooted kept [] = kept
clean_elements rooted [] (e ∷ rest) =
    clean_elements rooted
      (if str_eq e "" || str_eq e "." || (str_eq e ".." && rooted) then [] else e ∷ []) rest
clean_elements rooted (top ∷ kept) (e ∷ rest) =
    clean_elements rooted
      (if str_eq e "" || str_eq e "."
        then top ∷ kept
        else if str_eq e ".." && not (str_eq top "..")
        then kept
        else e ∷ top ∷ kept)
      rest

join_reversed : List String → String
join_reversed [] = ""
join_reversed (e ∷ []) = e
join_reversed (e ∷ d ∷ kept) = concat (join_reversed (d ∷ kept)) (concat "/" e)

-- filepath.Clean
unfoldable pub clean : String → String
unfolding split_at_slash clean_elements join_reversed is_abs
clean path =
    if is_abs path
    then concat "/" (join_reversed (clean_elements true [] (split_at_slash "" path)))
    else let kept = join_reversed (clean_elements false [] (split_at_slash "" path)) in
      if str_eq kept "" then "." else kept

-- The loop of distinctAbsolutePaths.
unfoldable pub distinct_paths : List String → List String → Bool
unfolding is_abs clean
distinct_paths seen [] = true
distinct_paths seen (path ∷ rest) =
    is_abs path && not (str_mem (clean path) seen) && distinct_paths (clean path ∷ seen) rest

-- distinctAbsolutePaths
unfoldable pub distinct_absolute_paths : List String → Bool
unfolding distinct_paths
distinct_absolute_paths paths = distinct_paths [] paths

clean_test : clean "/a/./b//../c/" ≡ "/a/c"
unfolding clean
clean_test = refl

clean_relative : clean "a/../../b" ≡ "../b"
unfolding clean
clean_relative = refl

distinct_test : distinct_absolute_paths ("/k/a" ∷ "/k/./a" ∷ []) ≡ false
unfolding distinct_absolute_paths
distinct_test = refl
