-- ===== src/GoLib/Path.antt =====
-- path.Clean of Go's library: the shortest path that names the same as its argument.
use codewave_timer.Base.{
  ◌≡◌, refl, Bool, false, List, [], ◌∷◌, ◌++◌, Bytes, codes, bytes_eq, ◌==◌, if◌then◌else◌,
}
use codewave_timer.GoLib.Split.{split}

unfoldable pub is_rooted : Bytes → Bool
is_rooted [] = false
is_rooted (c ∷ s) = c == b'/'

-- The segments that are kept stand newest first. A ".." takes back the segment before it, and at the
-- root it is dropped.
step_up : Bool → List Bytes → List Bytes
step_up rooted [] = if rooted then [] else codes ".." ∷ []
step_up rooted (last ∷ kept) = if bytes_eq last (codes "..") then codes ".." ∷ last ∷ kept else kept

take_segment : Bool → Bytes → List Bytes → List Bytes
unfolding step_up
take_segment rooted segment kept =
    if bytes_eq segment []
    then kept
    else if bytes_eq segment (codes ".")
    then kept
    else if bytes_eq segment (codes "..")
    then step_up rooted kept
    else segment ∷ kept

clean_segments : Bool → List Bytes → List Bytes → List Bytes
unfolding take_segment
clean_segments rooted kept [] = kept
clean_segments rooted kept (segment ∷ segments) =
    clean_segments rooted (take_segment rooted segment kept) segments

joined : List Bytes → Bytes
joined [] = []
joined (segment ∷ []) = segment
joined (segment ∷ kept) = joined kept ++ b'/' ∷ segment

unfoldable pub clean : Bytes → Bytes
unfolding is_rooted clean_segments joined split
clean path =
    let kept = clean_segments (is_rooted path) [] (split path b'/') in
    if is_rooted path
    then b'/' ∷ joined kept
    else elim kept [ [] ↦ codes "." | segment ∷ rest ↦ joined (segment ∷ rest) ]

clean_runs : clean (codes "/api//timer/./old/../create/") ≡ codes "/api/timer/create"
unfolding clean
clean_runs = refl

clean_relative : clean (codes "../../a/..") ≡ codes "../.."
unfolding clean
clean_relative = refl

clean_empty : clean [] ≡ codes "."
unfolding clean
clean_empty = refl
