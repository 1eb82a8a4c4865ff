-- ===== src/Tests/Dialogues.antt =====
-- The dialogue of the filter wizard.
use doesnotfail2ban.Prelude.{
  String, ◌≡◌, refl, Bool, true, false, some, none, [], ◌∷◌, map, any, arith,
}
use doesnotfail2ban.Prelude.Results.{ok}
use doesnotfail2ban.Pcre.{compile_pattern}
use doesnotfail2ban.Cli.FilterWizard.{Wizard, Ending, filter_json, filter_wizard}
use doesnotfail2ban.Cli.FilterWizard.Dialogue.{Entered, IsEntered, hits}
use doesnotfail2ban.Cli.FilterWizard.Kept.{filter_wizard-prints, filter_wizard-unanswered}
use doesnotfail2ban.Cli.FilterWizard.Output.{EndsRefused, filter_wizard-EndsRefused}
use doesnotfail2ban.Tests.Fixtures.{literal}

abbrev user_pattern : Entered literal
user_pattern = record {
  text = "user ";
  pattern = record { code = "user "; raw_pattern = "user " };
  noise = "what?" ∷ [];
  keep = false;
}

abbrev from_pattern : Entered literal
from_pattern = record {
  text = "from ";
  pattern = record { code = "from "; raw_pattern = "from " };
  noise = [];
  keep = true;
}

user_pattern-IsEntered : IsEntered literal user_pattern
unfolding compile_pattern
user_pattern-IsEntered = (refl, refl, ((refl, refl), tt))

from_pattern-IsEntered : IsEntered literal from_pattern
unfolding compile_pattern
from_pattern-IsEntered = (refl, refl, tt)

abbrev no_file : String → Bool
no_file name = false

filter_wizard-prints_example :
    (w : Wizard literal) × (filter_wizard literal true false no_file 9
        ("a user " ∷ "" ∷ "user " ∷ "what?" ∷ "n" ∷ "from " ∷ "y" ∷ "" ∷ "a" ∷ [])
      ≡ some (ok (w, Ending.printed (filter_json ("from " ∷ []) true))))
    × (w.messages
        ≡ map (λ s. (s, any (hits literal s) (user_pattern ∷ from_pattern ∷ []))) ("a user " ∷ []))
filter_wizard-prints_example =
    filter_wizard-prints literal true false no_file 9 ("a user " ∷ [])
      (user_pattern ∷ from_pattern ∷ []) [] ((refl, refl), tt)
      (user_pattern-IsEntered, (from_pattern-IsEntered, tt)) (omega arith)

filter_wizard-unanswered_example :
    filter_wizard literal true false no_file 1000 ("" ∷ "from " ∷ "y" ∷ "user " ∷ "what?" ∷ [])
    ≡ none
filter_wizard-unanswered_example =
    filter_wizard-unanswered literal true false no_file 1000 [] (from_pattern ∷ []) user_pattern tt
      (from_pattern-IsEntered, tt) user_pattern-IsEntered

filter_wizard-EndsRefused_example :
    EndsRefused literal
      (filter_wizard literal true true no_file 5 ("" ∷ "from " ∷ "y" ∷ "" ∷ "f" ∷ "mine" ∷ []))
filter_wizard-EndsRefused_example =
    filter_wizard-EndsRefused literal true true no_file 5
      ("" ∷ "from " ∷ "y" ∷ "" ∷ "f" ∷ "mine" ∷ [])
