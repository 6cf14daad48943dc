-- ===== src/Github/Comments/Trusted.antt =====
-- On the commands of operators in comments (src/symphony/github.py).
use openhands_symphony.Base.{
  In, ℕ, true, ◌≡◌, refl, sym, Option, none, some, List, [], ◌∷◌, inl, inr, Option-cases,
  Bool-cases, All, All-imp,
}
use openhands_symphony.Intake.{codes, contains}
use openhands_symphony.Intake.Control.{parse_control_command}
use openhands_symphony.Store.Control.{Command}
use openhands_symphony.Github.Api.{CommentRow, Client}
use openhands_symphony.Github.Reads.{text_or}
use openhands_symphony.Github.Comments.{
  trusted_associations, issue_number_of, command_of, command_in, listed, commands_in,
}

-- What a comment says that is taken for a command.
pub record Says (c : Client) (row : CommentRow) (x : (ℕ × ℕ) × Command) : Type 0 where
  pub word : List ℕ
  pub parsed : parse_control_command c.unicode (codes (text_or row.body "")) ≡ some word
  pub trusted : contains trusted_associations (c.upper (text_or row.author_association "")) ≡ true
  pub issue : issue_number_of (codes (text_or row.issue_url "")) ≡ some x.0.0
  pub id : row.id ≡ some x.0.1
  pub command : x.1 ≡ command_of c word

pub record Trusted (c : Client) (rows : List CommentRow) (x : (ℕ × ℕ) × Command) : Type 0 where
  pub row : CommentRow
  pub is_there : In row rows
  pub says : Says c row x

some_same : {A : Type 0} {a b : A} → some a ≡ some b → a ≡ b
some_same h = cc

module _ (c : Client) where
  command_in-Says :
      (row : CommentRow) (x : (ℕ × ℕ) × Command) → command_in c row ≡ some x → Says c row x
  unfolding command_in
  command_in-Says row x h =
      elim (Option-cases (parse_control_command c.unicode (codes (text_or row.body "")))) [
        | inl e ↦ let h' = rw (e, command_in) at h in cc
        | inr (word, e) ↦
            elim (Bool-cases
              (contains trusted_associations (c.upper (text_or row.author_association "")))) [
                | inr f ↦ let h' = rw (e, command_in, f) at h in cc
                | inl f ↦ elim (Option-cases (issue_number_of (codes (text_or row.issue_url "")))) [
                  | inl g ↦ let h' = rw (e, command_in, f, g) at h in cc
                  | inr (number, g) ↦ elim (Option-cases row.id) [
                    | inl k ↦ let h' = rw (e, command_in, f, g, k) at h in cc
                    | inr (id, k) ↦
                        let same : ((number, id), command_of c word) ≡ x =
                          some_same (rw (e, command_in, f, g, k) at h) in
                        record {
                          word = word;
                          parsed = e;
                          trusted = f;
                          issue = rw (sym same) g;
                          id = rw (sym same) k;
                          command = rw (sym same) refl;
                        }
                  ]
                ]
              ]
      ]

  All-listed :
      {A : Type 0} (P : A → Type 0) (o : Option A) (rest : List A)
      → ((x : A) → o ≡ some x → P x)
      → All P rest
      → All P (listed c o rest)
  All-listed P none rest here there = there
  All-listed P (some x) rest here there = (here x refl, there)

  -- Every command that is listed stands in a comment of an owner, member or collaborator, on the issue
  -- and with the id that are given, and is what that comment parses to.
  pub commands_in-Trusted : (rows : List CommentRow) → All (Trusted c rows) (commands_in c rows)
  unfolding commands_in
  commands_in-Trusted [] = tt
  commands_in-Trusted (row ∷ rows) =
      let rest =
        All-imp (Trusted c rows) (Trusted c (row ∷ rows)) (commands_in c rows) later
          (commands_in-Trusted rows) in
      All-listed (Trusted c (row ∷ rows)) (command_in c row) (commands_in c rows)
        (λ x e. record { row = row; is_there = inl refl; says = command_in-Says row x e }) rest
    where
      later : (x : (ℕ × ℕ) × Command) → Trusted c rows x → Trusted c (row ∷ rows) x
      later x t = record { row = t.row; is_there = inr t.is_there; says = t.says }
