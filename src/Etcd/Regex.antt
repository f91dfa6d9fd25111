-- ===== src/Etcd/Regex.antt =====
-- Patterns as src/etcd/registry.rs gives them to the crate `regex`, and the matches of one as that
-- crate documents them: the leftmost one, and at one place the first in the order of preference, in
-- which a repetition takes as much as it can and an optional part is preferred.
pub mod First
pub mod Fails
use Prim.Native.Char.{Char, code}
use Prim.Native.String.{◌++◌ as ◌<>◌}
use flannel_ng.Base.{
  ℕ, String, Bool, true, false, not, ◌&&◌, ◌||◌, Option, none, some, List, [], ◌∷◌, ◌++◌, map, leb,
  ◌==◌, if◌then◌else◌,
}

-- A class of characters, by their codes.
pub data Class : Type 0 where
  literal : ℕ → Class
  -- `\d`, which is that of Unicode
  digit : Class
  -- `.`, any character but a newline
  any_char : Class
  range : ℕ → ℕ → Class
  either : Class → Class → Class

pub data Pattern : Type 0 where
  one : Class → Pattern
  -- `+`
  plus : Class → Pattern
  seq : Pattern → Pattern → Pattern
  group : Pattern → Pattern
  -- `(?:…)?`
  maybe : Pattern → Pattern
  -- `$`
  end : Pattern

-- What a match takes, the text after it, and what the groups take.
pub record Hit : Type 0 where
  pub taken : String
  pub rest : String
  pub groups : List (Option String)

-- The groups of a pattern that takes no part in a match.
unfoldable pub no_groups : Pattern → List (Option String)
no_groups (one cl) = []
no_groups (plus cl) = []
no_groups (seq p q) = no_groups p ++ no_groups q
no_groups (group p) = none ∷ no_groups p
no_groups (maybe p) = no_groups p
no_groups end = []

abbrev pub joined : Hit → Hit → Hit
joined h h' = record { taken = h.taken <> h'.taken; rest = h'.rest; groups = h.groups ++ h'.groups }

unfoldable pub bind : List Hit → (String → List Hit) → List Hit
bind [] f = []
bind (h ∷ hits) f = map (joined h) (f h.rest) ++ bind hits f

abbrev pub hit : String → String → Hit
hit taken rest = record { taken = taken; rest = rest; groups = [] }

abbrev pub longer : Char → Hit → Hit
longer ch h = hit (String.◌∷◌ ch h.taken) h.rest

abbrev pub captured : Hit → Hit
captured h = record h { groups = some h.taken ∷ h.groups }

-- The digits of Unicode past ASCII are a parameter.
module _ (decimal : ℕ → Bool) where
  unfoldable pub matches : Class → ℕ → Bool
  matches (literal n) ch = ch == n
  matches digit ch = (leb 48 ch && leb ch 57) || (leb 128 ch && decimal ch)
  matches any_char ch = not (ch == 10)
  matches (range a b) ch = leb a ch && leb ch b
  matches (either x y) ch = matches x ch || matches y ch

  unfoldable pub run_one : Class → String → List Hit
  unfolding matches
  run_one cl String.[] = []
  run_one cl (String.◌∷◌ ch s) = if matches cl (code ch) then hit (String.◌∷◌ ch "") s ∷ [] else []

  unfoldable pub run_plus : Class → String → List Hit
  unfolding matches
  run_plus cl String.[] = []
  run_plus cl (String.◌∷◌ ch s) =
      let further = run_plus cl s in
      if matches cl (code ch)
      then map (longer ch) further ++ (hit (String.◌∷◌ ch "") s ∷ [])
      else []

  abbrev pub run_end : String → List Hit
  run_end String.[] = hit "" "" ∷ []
  run_end (String.◌∷◌ ch s) = []

  -- The matches at the start of a text, in the order of preference.
  unfoldable pub run : Pattern → String → List Hit
  unfolding bind run_one run_plus no_groups
  run (one cl) s = run_one cl s
  run (plus cl) s = run_plus cl s
  run (seq p q) s = bind (run p s) (run q)
  run (group p) s = map captured (run p s)
  run (maybe p) s = run p s ++ (record { taken = ""; rest = s; groups = no_groups p } ∷ [])
  run end s = run_end s

  abbrev pub first_or : List Hit → Option (List (Option String)) → Option (List (Option String))
  first_or [] later = later
  first_or (h ∷ hits) later = some (some h.taken ∷ h.groups)

  -- The whole match and the groups of the leftmost match.
  unfoldable pub captures : Pattern → String → Option (List (Option String))
  unfolding run
  captures p String.[] = first_or (run p "") none
  captures p (String.◌∷◌ ch s) = first_or (run p (String.◌∷◌ ch s)) (captures p s)
