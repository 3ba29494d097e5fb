-- ===== src/Filepath.antt =====
-- path/filepath on Unix: Clean, Join, Dir and Base.
use gklog.Base.{
  List, [], ◌∷◌, ◌++◌, reverse, Bool, false, not, ◌||◌, ◌≡◌, refl, ◌==◌, if◌then◌else◌, is_empty,
}
use gklog.Text.{Bytes, codes, same}
use gklog.Text.Parts.{split, join}

-- One element of a path, on the elements before it, the last one first: "" and "." say nothing, and
-- ".." takes back an element, if there is one to take back.
clean_step : Bool → List Bytes → Bytes → List Bytes
clean_step rooted [] p =
    if is_empty p || same p (codes ".")
    then []
    else if same p (codes "..")
    then (if rooted then [] else p ∷ [])
    else p ∷ []
clean_step rooted (q ∷ acc) p =
    if is_empty p || same p (codes ".")
    then q ∷ acc
    else if same p (codes "..")
    then (if same q (codes "..") then p ∷ q ∷ acc else acc)
    else p ∷ q ∷ acc

clean_parts : Bool → List Bytes → List Bytes → List Bytes
clean_parts rooted acc [] = acc
clean_parts rooted acc (p ∷ ps) = clean_parts rooted (clean_step rooted acc p) ps

abbrev starts_at_root : Bytes → Bool
starts_at_root [] = false
starts_at_root (c ∷ s) = c == b'/'

abbrev or_dot : Bytes → Bytes
or_dot s = if is_empty s then codes "." else s

unfoldable pub clean : Bytes → Bytes
unfolding clean_step clean_parts
clean path =
    let rooted = starts_at_root path in
    let parts = reverse (clean_parts rooted [] (split path b'/')) in
    if rooted then b'/' ∷ join parts (codes "/") else or_dot (join parts (codes "/"))

-- Join of two elements; an empty first element is left out.
unfoldable pub join_path : Bytes → Bytes → Bytes
unfolding clean
join_path dir rel =
    if not (is_empty dir)
    then clean (dir ++ b'/' ∷ rel)
    else if not (is_empty rel)
    then clean rel
    else []

-- The bytes after the last slash, and those up to it, from a path whose bytes come last first.
after_slash : Bytes → Bytes
after_slash [] = []
after_slash (c ∷ s) = let rest = after_slash s in if c == b'/' then [] else c ∷ rest

up_to_slash : Bytes → Bytes
up_to_slash [] = []
up_to_slash (c ∷ s) = let rest = up_to_slash s in if c == b'/' then c ∷ s else rest

unfoldable pub dir_of : Bytes → Bytes
unfolding clean up_to_slash
dir_of path = clean (reverse (up_to_slash (reverse path)))

strip_slashes : Bytes → Bytes
strip_slashes [] = []
strip_slashes (c ∷ s) = let rest = strip_slashes s in if c == b'/' then rest else c ∷ s

unfoldable pub base_of : Bytes → Bytes
unfolding after_slash strip_slashes
base_of path =
    let name = reverse (after_slash (strip_slashes (reverse path))) in
    if is_empty path then codes "." else if is_empty name then codes "/" else name

clean_runs : clean (codes "/a/./b//../../../c/") ≡ codes "/c"
unfolding clean split join
clean_runs = refl

dir_runs : dir_of (codes "logs/app.log") ≡ codes "logs"
unfolding dir_of clean split join
dir_runs = refl

base_runs : base_of (codes "logs/app//") ≡ codes "app"
unfolding base_of
base_runs = refl
