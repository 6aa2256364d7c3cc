-- ===== src/Landing/Layers.antt =====
-- The rings of the landing page: the layers and the phases of the animation in
-- web/app/src/landing/layer-diagram.tsx. A cycle takes 5200 milliseconds, and a point of it is a number
-- of them: the boundaries of the source, 0.06, 0.54 and 0.72 of a cycle, are whole numbers of these.
pub mod Order
use zero_code.Base.{
  ◌++◌, length, take, get_elem?, ℕ, ◌+◌, ◌-◌, ◌*◌, ◌/◌, ◌%◌, Bool, true, false, List, [], ◌∷◌,
  Option, none, some, if◌then◌else◌, ltb, min,
}
use zero_code.Base.Text.{Text, codes}

pub record Layer : Type 0 where
  pub n : ℕ
  pub key : Text
  pub name : Text
  pub short : Text
  pub call : Text
  pub note : Text

abbrev layer : ℕ → Text → Text → Text → Text → Text → Layer
layer n key name short call note = record {
  n = n;
  key = key;
  name = name;
  short = short;
  call = call;
  note = note;
}

-- `LAYERS`
abbrev pub layers : List Layer
layers =
    layer 1 (codes "userns") (codes "user namespace") (codes "userns")
      (codes "unshare(CLONE_NEWUSER)") (codes "uid 0 in box → unprivileged outside")
    ∷ layer 2 (codes "ns") (codes "pid · net · ipc · uts · mnt") (codes "namespaces")
        (codes "unshare(CLONE_NEW{PID,NET,IPC,UTS,NS})")
        (codes "every kernel namespace, no sharing")
    ∷ layer 3 (codes "pivot") (codes "pivot_root") (codes "pivot_root")
        (codes "pivot_root(\"/runner\", \"/runner/.old\")")
        (codes "read-only runner rootfs, no host paths")
    ∷ layer 4 (codes "landlock") (codes "landlock LSM") (codes "landlock")
        (codes "landlock_create_ruleset(&attr, sizeof(attr), 0)")
        (codes "fs access whitelist enforced by kernel")
    ∷ layer 5 (codes "seccomp") (codes "seccomp BPF") (codes "seccomp")
        (codes "prctl(PR_SET_SECCOMP, SECCOMP_MODE_FILTER, &prog)")
        (codes "~310 syscalls denied by default")
    ∷ layer 6 (codes "cgroup") (codes "cgroup v2") (codes "cgroup")
        (codes "write(\"/sys/fs/cgroup/zc/cgroup.procs\", ...)")
        (codes "memory · cpu · pids · io quotas")
    ∷ layer 7 (codes "caps") (codes "capability drop") (codes "capdrop")
        (codes "cap_set_proc(cap_init())  /* bounding set: ∅ */")
        (codes "CAP_SYS_* removed, bounding set empty")
    ∷ layer 8 (codes "nnp") (codes "NO_NEW_PRIVS") (codes "nnp")
        (codes "prctl(PR_SET_NO_NEW_PRIVS, 1, 0, 0, 0)")
        (codes "setuid neutered, suid binaries inert")
    ∷ []

-- `HoverKind`, where none is null.
pub data Spot : Type 0 where
  ring : ℕ → Spot
  kernel : Spot

abbrev pub cycle : ℕ
cycle = 5200

abbrev pub ring_start : ℕ
ring_start = 312

abbrev pub ring_step : ℕ
ring_step = 312

-- `RING_START + RING_STEP * 8`
abbrev pub ring_end : ℕ
ring_end = ring_start + ring_step * 8

abbrev pub kernel_end : ℕ
kernel_end = 3744

-- `elapsed % cycleS`, in milliseconds.
unfoldable pub cycle_at : ℕ → ℕ
cycle_at elapsed = elapsed % cycle

-- `activeFromT`
unfoldable pub active_at : Option Spot → ℕ → Option Spot
active_at (some spot) t = some spot
active_at none t =
    if ltb t ring_start
    then none
    else if ltb t ring_end
    then some (ring (min 7 ((t - ring_start) / ring_step)))
    else if ltb t kernel_end
    then some kernel
    else none

-- The number published, in hundredths of a millisecond: `min(18, floor(cycleT * 28 * 100) / 100)`.
unfoldable pub published : ℕ → ℕ
published t = min 1800 (t * 2800 / cycle)

-- The animation: the point of the cycle that is shown, the number published, and what is hovered.
pub record Diagram : Type 0 where
  pub t : ℕ
  pub ms : ℕ
  pub hover : Option Spot

-- A frame, at a time since the start: nothing moves while something is hovered.
unfoldable pub frame : ℕ → Diagram → Diagram
unfolding cycle_at published
frame elapsed d = elim d.hover [
  | some spot ↦ d
  | none ↦ record d { t = cycle_at elapsed; ms = published (cycle_at elapsed) }
]

-- The effect where motion is to be reduced: a tenth of a cycle, and 2.8.
unfoldable pub still : Diagram → Diagram
still d = record d { t = 520; ms = 280 }

unfoldable pub set_hover : Option Spot → Diagram → Diagram
set_hover spot d = record d { hover = spot }

-- `padStart(2, '0')`
abbrev pub pad_2 : Text → Text
pad_2 [] = codes "00"
pad_2 (c ∷ []) = b'0' ∷ c ∷ []
pad_2 (c ∷ d ∷ s) = c ∷ d ∷ s

-- The call beside a ring, which the small variant cuts off.
unfoldable pub call_text : Bool → Layer → Text
call_text true l = l.call
call_text false l = if ltb 32 (length l.call) then take 30 l.call ++ codes "…" else l.call

-- The card of what is hovered: its heading, call and note.
unfoldable pub xray : (ℕ → Text) → (Text → Text) → Spot → Option (Text × Text × Text)
xray show to_upper kernel = some (
  codes "EXECUTION KERNEL",
  codes "execve(language_runtime, argv, envp)",
  codes "your code runs here, surrounded by 8 walls",
)
xray show to_upper (ring i) = elim (get_elem? layers i) [
  | none ↦ none
  | some l ↦ some (pad_2 (show l.n) ++ codes " · " ++ to_upper l.short, l.call, l.note)
]
