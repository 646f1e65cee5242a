-- ===== src/Cli/Lines.antt =====
-- What is typed for a command is read as that command.
use mathlib.Core.List.{nil≢cons, append_assoc}
use nexus_p2p.Base.{
  ℕ, ◌≡◌, ◌≢◌, refl, sym, ap, ◌∙◌, none, some, [], ◌∷◌, ◌++◌, arith, All, ==-ne, nat_eq, list_eq,
}
use nexus_p2p.Base.Text.{Text, codes, trim, trim_start, trim_end, is_whitespace}
use nexus_p2p.Base.Result.{ok}
use nexus_p2p.Cli.{CliCommand, split_once, splitn, command_of, parts_command, parse_line, required}

-- what is typed
abbrev pub shown : CliCommand → Text
shown CliCommand.peers = codes "peers"
shown (CliCommand.pair id) = codes "pair " ++ id
shown (CliCommand.say id text) = codes "say " ++ (id ++ 32 ∷ text)
shown (CliCommand.file id path) = codes "file " ++ (id ++ 32 ∷ path)
shown (CliCommand.chat id) = codes "chat " ++ id
shown (CliCommand.sync id) = codes "sync " ++ id
shown CliCommand.quit = codes "quit"
shown CliCommand.blank = []
shown (CliCommand.unknown t) = t

abbrev pub HasNoSpace : Text → Type 0
HasNoSpace t = All (λ c. c ≢ 32) t

-- Something, with no white space at its end.
abbrev pub EndsWell : Text → Type 0
EndsWell t = (t ≢ []) × (trim_end t ≡ t)

-- Ids have no space; the last part ends well, and may have spaces within and before it.
abbrev pub IsTypable : CliCommand → Type 0
IsTypable (CliCommand.pair id) = HasNoSpace id × EndsWell id
IsTypable (CliCommand.chat id) = HasNoSpace id × EndsWell id
IsTypable (CliCommand.sync id) = HasNoSpace id × EndsWell id
IsTypable (CliCommand.say id text) = HasNoSpace id × EndsWell text
IsTypable (CliCommand.file id path) = HasNoSpace id × EndsWell path
IsTypable (CliCommand.unknown t) = ⊥
IsTypable _ = Unit {0}

full : (a t : Text) → t ≢ [] → a ++ t ≢ []
full [] t h = h
full (c ∷ a) t h = λ e. nil≢cons (sym e)

trim_end-cons : (c : ℕ) (s : Text) → s ≢ [] → trim_end s ≡ s → trim_end (c ∷ s) ≡ c ∷ s
unfolding trim_end
trim_end-cons c [] n e = absurd (n refl)
trim_end-cons c (d ∷ s) n e = rw e refl

trim_end-append : (a t : Text) → EndsWell t → trim_end (a ++ t) ≡ a ++ t
trim_end-append [] t h = h.1
trim_end-append (c ∷ a) t h = trim_end-cons c (a ++ t) (full a t h.0) (trim_end-append a t h)

split_once-some : (a b : Text) → HasNoSpace a → split_once 32 (a ++ 32 ∷ b) ≡ (a, some b)
unfolding split_once nat_eq
split_once-some [] b h = refl
split_once-some (c ∷ a) b h = rw (split_once-some a b h.1, ==-ne h.0) refl

split_once-none : (a : Text) → HasNoSpace a → split_once 32 a ≡ (a, none)
unfolding split_once
split_once-none [] h = refl
split_once-none (c ∷ a) h = rw (split_once-none a h.1, ==-ne h.0) refl

-- the parts of a line with one argument, and with two
one : (w id : Text) → HasNoSpace w → HasNoSpace id → splitn 3 32 (w ++ 32 ∷ id) ≡ w ∷ id ∷ []
unfolding splitn
one w id hw h = rw (split_once-some w id hw, split_once-none id h) refl

two :
    (w id t : Text)
    → HasNoSpace w
    → HasNoSpace id
    → splitn 3 32 (w ++ 32 ∷ (id ++ 32 ∷ t)) ≡ w ∷ id ∷ t ∷ []
unfolding splitn
two w id t hw h = rw (split_once-some w (id ++ 32 ∷ t) hw, split_once-some id t h) refl

-- a line whose first part is a word
one_argument :
    (w id : Text)
    → HasNoSpace w
    → trim (w ++ 32 ∷ id) ≡ trim_end (w ++ 32 ∷ id)
    → HasNoSpace id
    → EndsWell id
    → parse_line (w ++ 32 ∷ id) ≡ command_of w (id ∷ [])
unfolding parse_line
one_argument w id hw t h e =
    let moved = append_assoc w (32 ∷ []) id in
    ap parts_command (
      ap (splitn 3 32) (t ∙ ap trim_end (sym moved) ∙ trim_end-append (w ++ 32 ∷ []) id e ∙ moved)
      ∙ one w id hw h)

two_arguments :
    (w id rest : Text)
    → HasNoSpace w
    → trim (w ++ 32 ∷ (id ++ 32 ∷ rest)) ≡ trim_end (w ++ 32 ∷ (id ++ 32 ∷ rest))
    → HasNoSpace id
    → EndsWell rest
    → parse_line (w ++ 32 ∷ (id ++ 32 ∷ rest)) ≡ command_of w (id ∷ rest ∷ [])
unfolding parse_line
two_arguments w id rest hw t h e =
    let moved = append_assoc (w ++ 32 ∷ id) (32 ∷ []) rest ∙ append_assoc w (32 ∷ id) (32 ∷ rest) in
    ap parts_command (
      ap (splitn 3 32)
        (t ∙ ap trim_end (sym moved) ∙ trim_end-append ((w ++ 32 ∷ id) ++ 32 ∷ []) rest e ∙ moved)
      ∙ two w id rest hw h)

-- What is typed for a command is read as that command, where ids have no space and the last part
-- is something with no white space at its end; it keeps its spaces within.
pub parse_line-shown : (c : CliCommand) → IsTypable c → parse_line (shown c) ≡ ok c
unfolding parse_line command_of required trim trim_start trim_end is_whitespace split_once splitn
    list_eq nat_eq
parse_line-shown CliCommand.peers h = refl
parse_line-shown (CliCommand.pair id) h = one_argument (codes "pair") id (search arith) refl h.0 h.1
parse_line-shown (CliCommand.say id text) h =
    two_arguments (codes "say") id text (search arith) refl h.0 h.1
parse_line-shown (CliCommand.file id path) h =
    two_arguments (codes "file") id path (search arith) refl h.0 h.1
parse_line-shown (CliCommand.chat id) h = one_argument (codes "chat") id (search arith) refl h.0 h.1
parse_line-shown (CliCommand.sync id) h = one_argument (codes "sync") id (search arith) refl h.0 h.1
parse_line-shown CliCommand.quit h = refl
parse_line-shown CliCommand.blank h = refl
parse_line-shown (CliCommand.unknown t) h = absurd h
