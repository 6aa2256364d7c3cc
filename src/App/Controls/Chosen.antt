-- ===== src/App/Controls/Chosen.antt =====
-- Which button of the tabs is the active one.
use zero_code.Base.{◌≡◌, true, List, keep, length, arith}
use zero_code.Base.Text.{Text}
use zero_code.App.Tabs.{
  OutputTab, stdout, stderr, compile, meta, Marks, Props, Pane, render, offered,
}
use zero_code.App.Tabs.Shown.{render-offered}
use zero_code.App.Controls.{tab_buttons}

one_active :
    (tab : OutputTab) (unseen : Marks) (output : List Text) (p : Props)
    → offered p tab ≡ true
    → length (keep (λ b. b.is_active) (tab_buttons tab unseen output p.stderr p.compile_output)) ≡ 1
unfolding tab_buttons offered
one_active stdout unseen output p h = ground arith
one_active stderr unseen output p h = ground arith
one_active compile unseen output p h = ground arith
one_active meta unseen output p h = ground arith

-- After every render of the output pane, whatever its properties have changed to, exactly one of the buttons
-- of the tabs is the active one.
pub tab_buttons-render :
    (old p : Props) (s : Pane) (output : List Text)
    → offered old s.tab ≡ true
    → let after = render old p s in
      length (
        keep
          (λ b. b.is_active)
          (tab_buttons after.tab after.unseen output p.stderr p.compile_output))
      ≡ 1
tab_buttons-render old p s output h =
    let after = render old p s in
    one_active after.tab after.unseen output p (render-offered old p s h)
