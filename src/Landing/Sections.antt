-- ===== src/Landing/Sections.antt =====
-- The sections of the landing page that show data: `IsolationSection`, `HowItWorks`, `TestCasesSection` and
-- `SpeedSection` of web/app/src/landing/sections.tsx.
pub mod Card
use zero_code.Base.{
  ℕ, zero, suc, Bool, true, false, List, [], ◌∷◌, ◌++◌, Option, none, some, if◌then◌else◌,
  get_elem?, ◌==◌, or_else,
}
use zero_code.Base.Text.{Text, codes}
use zero_code.Landing.Layers.{Layer, layers, pad_2}

-- `active`, from `hovered`.
unfoldable pub active : Option ℕ → ℕ
active hovered = or_else hovered 0

-- The card of the layer that is active: the text above, the name, the note and the call.
pub record LayerCard : Type 0 where
  pub num : Text
  pub name : Text
  pub desc : Text
  pub call : Text

-- A button below it.
pub record LayerButton : Type 0 where
  pub is_active : Bool
  pub label : Text
  pub short : Text

-- `show` is `String`.
module _ (show : ℕ → Text) where
  abbrev pub card_of : ℕ → Option Layer → Option LayerCard
  card_of i none = none
  card_of i (some l) = some (record {
    num = codes "layer " ++ pad_2 (show (suc i));
    name = l.name;
    desc = l.note;
    call = codes "syscall · " ++ l.call;
  })

  unfoldable pub layer_card : Option ℕ → Option LayerCard
  unfolding active
  layer_card hovered = card_of (active hovered) (get_elem? layers (active hovered))

  -- The buttons of the layers from a position on.
  unfoldable pub buttons_from : ℕ → Option ℕ → List Layer → List LayerButton
  unfolding active
  buttons_from i hovered [] = []
  buttons_from i hovered (l ∷ ls) =
      record {
        is_active = i == active hovered;
        label = codes "Show layer " ++ show (suc i) ++ codes ": " ++ l.name;
        short = l.short;
      }
      ∷ buttons_from (suc i) hovered ls

  unfoldable pub layer_buttons : Option ℕ → List LayerButton
  unfolding buttons_from
  layer_buttons hovered = buttons_from 0 hovered layers

-- `setHovered`: a pointer over a button, its focus or a click on it. Nothing sets null again.
abbrev pub hover : ℕ → Option ℕ → Option ℕ
hover i hovered = some i

pub record HowStep : Type 0 where
  pub n : Text
  pub title : Text
  pub body : Text
  pub code : Text

-- `STEPS`
abbrev pub steps : List HowStep
steps =
    record {
      n = codes "01";
      title = codes "Submit";
      body =
          codes
            "POST source code + language ID. The API writes a row to Postgres, fires NOTIFY, and returns a token in single-digit milliseconds.";
      code =
          codes
            "POST /v1/submissions\n{ \"language_id\": 71,\n  \"source_code\": \"print(\\\"hi\\\")\" }";
    }
    ∷ record {
      n = codes "02";
      title = codes "Sandbox";
      body =
          codes
            "A worker wakes on LISTEN, claims the row, forks into a fresh user-namespace with 8 isolation layers, execs the runtime.";
      code =
          codes "clone3(unshare USER|PID|NET|...);\nlandlock + seccomp + cgroup;\npivot_root → run";
    }
    ∷ record {
      n = codes "03";
      title = codes "Stream";
      body =
          codes
            "stdout / stderr flow back over SSE byte-by-byte. On exit the verdict (Accepted / TLE / MLE / RE / …) plus metrics persist for 24 h.";
      code =
          codes
            "GET /v1/submissions/{tok}/stream\nevent: stdout · data: \"hi\\n\"\nevent: finished · accepted";
    }
    ∷ []

pub record BatchCase : Type 0 where
  pub stdin : Text
  pub out : Text
  pub is_pass : Bool

abbrev batch_case : Text → Text → BatchCase
batch_case stdin out = record { stdin = stdin; out = out; is_pass = true }

-- `BATCH_CASES`
abbrev pub batch_cases : List BatchCase
batch_cases =
    batch_case (codes "3") (codes "9")
    ∷ batch_case (codes "7") (codes "49")
    ∷ batch_case (codes "12") (codes "144")
    ∷ batch_case (codes "-5") (codes "25")
    ∷ batch_case (codes "9999") (codes "99980001")
    ∷ []

-- A row of the card: its number, the input, the output, the time, and the verdict, which is the same in
-- each.
pub record BatchRow : Type 0 where
  pub n : Text
  pub stdin : Text
  pub out : Text
  pub ms : Text
  pub v : Text

unfoldable pub batch_rows_from : (ℕ → Text) → ℕ → List BatchCase → List BatchRow
batch_rows_from show i [] = []
batch_rows_from show i (c ∷ cs) =
    record {
      n = codes "#" ++ show (suc i);
      stdin = c.stdin;
      out = c.out;
      ms = if i == 0 then codes "410ms" else codes "24ms";
      v = codes "✓ pass";
    }
    ∷ batch_rows_from show (suc i) cs

abbrev pub pill : Text
pill = codes "5 / 5 pass"

-- An item of `budget`, without its colour.
pub record BudgetItem : Type 0 where
  pub lbl : Text
  pub v : Text

abbrev budget_item : Text → Text → BudgetItem
budget_item lbl v = record { lbl = lbl; v = v }

abbrev pub budget : List BudgetItem
budget =
    budget_item (codes "POST → INSERT") (codes "~1.2 ms")
    ∷ budget_item (codes "NOTIFY → worker wake") (codes "~0.8 ms")
    ∷ budget_item (codes "claim + spawn sandbox") (codes "~2.4 ms")
    ∷ budget_item (codes "repeat compile (cached)") (codes "skipped")
    ∷ []
