-- ===== src/Webapp/Slices.antt =====
-- packages/nouns-webapp/src/state/slices/account.ts, application.ts and contracts.ts, and what the
-- pages and components do to the alert as a transaction goes on.
pub mod Transactions
use nouns_monorepo.Prelude.{Bool, true, false, Option, none, some}
use nouns_monorepo.Sdk.Text.{Text, codes, text_eq}

pub record AccountState : Type 0 where
  pub active_account : Option Text

-- Null counts as undefined.
unfoldable pub set_active_account : Option Text → AccountState → AccountState
set_active_account payload state = record state { active_account = payload }

pub record AlertModal : Type 0 where
  pub show : Bool
  pub title : Option Text
  pub message : Option Text

pub record ApplicationState : Type 0 where
  pub state_background_color : Text
  pub is_cool_background : Bool
  pub alert_modal : AlertModal

-- utils/nounBgColors.ts
abbrev pub grey : Text
grey = codes "#d5d7e1"

abbrev pub initial_application : ApplicationState
initial_application = record {
  state_background_color = grey;
  is_cool_background = true;
  alert_modal = record { show = false; title = none; message = none };
}

unfoldable pub set_state_background_color : Text → ApplicationState → ApplicationState
unfolding text_eq
set_state_background_color color state = record state {
  state_background_color = color;
  is_cool_background = text_eq color grey;
}

unfoldable pub set_alert_modal : AlertModal → ApplicationState → ApplicationState
set_alert_modal modal state = record state { alert_modal = modal }
