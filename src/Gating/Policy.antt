-- ===== src/Gating/Policy.antt =====
-- internal/gating/enforce.go and internal/gating/policy.go.
use avairy.Prelude.{
  Bool, true, false, ◌&&◌, not, List, [], ◌∷◌, Text, codes, Option, none, some, any, contains,
  to_lower, trim_space, if◌then◌else◌,
}

-- type ActionKind
pub data ActionKind : Type 0 where
  command file_write read git_mutate cross_node install : ActionKind

-- type Request, with the fields that the policy reads
pub record Request : Type 0 where
  pub agent_id : Text
  pub kind : ActionKind
  pub summary : Text

-- type Decision; the hook denies on any other string as on deny.
pub data Decision : Type 0 where
  allow deny allow_for_session : Decision

-- What a Decider returns: the decision, and whether the error is not nil.
pub record Verdict : Type 0 where
  pub decision : Decision
  pub failed : Bool

-- type Policy; no Approve is nil.
pub record Policy : Type 0 where
  pub approve : Option (Request → Verdict)
  pub gate_edits : Bool

abbrev pub destructive : List Text
destructive =
    codes "rm -rf"
    ∷ codes "rm -fr"
    ∷ codes "rm -r "
    ∷ codes "mkfs"
    ∷ codes "dd if="
    ∷ codes ":(){"
    ∷ codes "> /dev/sd"
    ∷ codes "shutdown"
    ∷ codes "reboot"
    ∷ codes "chmod -r 777 /"
    ∷ []

abbrev pub git_mutations : List Text
git_mutations =
    codes "git push"
    ∷ codes "git commit"
    ∷ codes "git tag"
    ∷ codes "git reset --hard"
    ∷ codes "git clean -"
    ∷ []

abbrev pub installs : List Text
installs =
    codes "sudo "
    ∷ codes "apt install"
    ∷ codes "apt-get install"
    ∷ codes "brew install"
    ∷ codes "npm install"
    ∷ codes "npm i "
    ∷ codes "pip install"
    ∷ codes "go install"
    ∷ codes "yum install"
    ∷ codes "dnf install"
    ∷ codes "cargo install"
    ∷ []

abbrev pub pattern_sets : List (List Text)
pattern_sets = destructive ∷ git_mutations ∷ installs ∷ []

-- GatedCommand
unfoldable pub gated_command : Text → Bool
gated_command cmd =
    let c = to_lower (trim_space cmd) in any (λ set. any (λ p. contains c p) set) pattern_sets

gated_kind : ActionKind → Text → Bool
gated_kind git_mutate s = true
gated_kind cross_node s = true
gated_kind install s = true
gated_kind file_write s = false
gated_kind read s = false
gated_kind command s = gated_command s

-- Gated
unfoldable pub gated : Request → Bool
unfolding gated_kind
gated req = gated_kind req.kind req.summary

abbrev is_file_write : ActionKind → Bool
is_file_write file_write = true
is_file_write _ = false

-- Policy.isGated
unfoldable pub is_gated : Policy → Request → Bool
is_gated p req = if p.gate_edits && is_file_write req.kind then true else gated req

-- Policy.Decide
unfoldable pub decide : Policy → Request → Verdict
decide p req =
    if not (is_gated p req) then record { decision = allow; failed = false } else elim p.approve [
      | none ↦ record { decision = deny; failed = false }
      | some approver ↦ approver req
    ]
