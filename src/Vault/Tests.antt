-- ===== src/Vault/Tests.antt =====
-- Tests and witnesses for the folders, the revealed passwords and the generator.
use iop.Base.{
  ℕ, zero, suc, ◌-◌, ◌≡◌, refl, inl, true, false, List, [], ◌∷◌, map, Option, none, some, Text,
  text, arith, text_eq, nat_eq, includes, filter, length, All, if◌then◌else◌,
}
use iop.Text.Search.{is_empty}
use iop.Types.Vault.{Folder}
use iop.Api.{resolved}
use iop.Vault.Folders.{build_tree, children_of, register, link_all, link, push_child, set_node}
use iop.Vault.Folders.Shape.{id_of, is_child_of, is_parentless, build_tree_lem}
use iop.Vault.Folders.Shown.{Shown, IsBelowParent, build_tree-Shown}
use iop.Vault.Reveal.{
  Hook, initial_hook, tick, start_reveal, settle_reveal, stop_timer, clear_reveal,
}
use iop.Vault.Reveal.Hidden.{
  Event, reveal_clicked, reveal_answered, second_passed, copy_clicked, run, handle, run-hidden,
}
use iop.Vault.Generator.{Choices, charset, generate_password}
use iop.Vault.Generator.Charset.{generate_password_lem}

abbrev folder_at : Text → Option Text → Folder
folder_at id parent = record {
  id = id;
  cabinet_id = text "c";
  parent_id = parent;
  name = id;
  created_at = [];
  updated_at = [];
  created_by = [];
  updated_by = [];
}

abbrev sample : List Folder
sample =
    folder_at (text "b") (some (text "a"))
    ∷ folder_at (text "a") none
    ∷ folder_at (text "c") (some (text "gone"))
    ∷ []

roots_of_sample : (build_tree sample).1 ≡ text "a" ∷ text "c" ∷ []
unfolding build_tree register set_node link_all link push_child
roots_of_sample = refl

build_tree_lem_example :
    (children_of (text "a") (build_tree sample).0 ≡ (
      if includes (map id_of sample) (text "a")
      then map id_of (filter (is_child_of (text "a")) sample)
      else []))
    × ((build_tree sample).1 ≡ map id_of (filter (is_parentless sample) sample))
build_tree_lem_example = build_tree_lem sample (text "a")

abbrev nested : List Folder
nested = folder_at (text "b") (some (text "a")) ∷ folder_at (text "a") none ∷ []

-- The folder b is below a.
abbrev rank : Text → ℕ
rank t = if includes (text "b" ∷ []) t then 1 else 0

nested-IsBelowParent : All (IsBelowParent rank nested) nested
nested-IsBelowParent =
    (λ p h k. rw⁻¹ ((text_eq.same_iff (text "a") p).0 h) (omega arith), (λ p h k. cc, tt))

build_tree-Shown_example : Shown nested (text "b")
build_tree-Shown_example =
    build_tree-Shown nested rank nested-IsBelowParent (folder_at (text "b") (some (text "a")))
      (inl refl)

abbrev clicks : List Event
clicks =
    reveal_clicked (text "e")
    ∷ reveal_answered (text "e") (resolved (text "secret"))
    ∷ second_passed 0
    ∷ copy_clicked (text "f")
    ∷ []

shows_secret : (run clicks initial_hook).reveal_state.seconds_left ≡ 29
unfolding run handle start_reveal settle_reveal tick clear_reveal stop_timer
shows_secret = refl

abbrev shown_hook : Hook
shown_hook = record {
  reveal_state = record {
    entry_id = some (text "e");
    password = some (text "secret");
    seconds_left = 3;
    loading = false;
  };
  copying_id = none;
  timer_ref = some 4;
  seconds_ref = 3;
  intervals = 1 ∷ 4 ∷ [];
  next_interval = 5;
}

abbrev three_seconds : List Event
three_seconds = second_passed 4 ∷ copy_clicked (text "f") ∷ second_passed 4 ∷ second_passed 4 ∷ []

run-hidden_example : (run three_seconds shown_hook).reveal_state.password ≡ none
run-hidden_example =
    run-hidden 4 three_seconds shown_hook (refl, refl, omega arith, omega arith) refl refl
      (omega arith)

abbrev all_choices : Choices
all_choices = record {
  use_upper = true;
  use_lower = true;
  use_digits = true;
  use_symbols = false;
  no_ambiguous = true;
}

-- Words that differ, as many as are asked for.
abbrev words : ℕ → List ℕ
words zero = []
words (suc n) = (4294967295 - n) ∷ words n

length-words : (n : ℕ) → length (words n) ≡ n
length-words zero = refl
length-words (suc n) = omega (arith, length-words n)

generate_password_lem_example :
    (length (generate_password words 6 all_choices)
      ≡ (if is_empty (charset all_choices) then 0 else 6))
    × All (λ ch. includes (charset all_choices) ch ≡ true) (generate_password words 6 all_choices)
generate_password_lem_example = generate_password_lem words 6 all_choices (length-words 6)
