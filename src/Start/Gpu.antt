-- ===== src/Start/Gpu.antt =====
-- The device nodes of src/bin/claudepod-start.rs that `--gpu` passes on.
use claudepod.Prelude.{
  Option, none, some, Bool, true, false, not, ◌&&◌, List, [], ◌∷◌, ◌++◌, map, Bytes, ascii, length,
  ◌==◌, if◌then◌else◌,
}
use claudepod.Outcome.{Outcome, ok, err, message, chain, add_context}
use claudepod.Paths.{strip_prefix, path_join}
use claudepod.Utf8.{from_utf8_lossy}
use claudepod.AgentEnv.{is_ascii_digit}
use claudepod.Proxy.Handshake.{text_lt}

abbrev pub control_nodes : List Bytes
control_nodes = ascii "nvidiactl" ∷ ascii "nvidia-uvm" ∷ ascii "nvidia-uvm-tools" ∷ []

unfoldable pub all_digits : Bytes → Bool
all_digits [] = true
all_digits (b ∷ bs) = is_ascii_digit b && all_digits bs

abbrev is_number : Option Bytes → Bool
is_number none = false
is_number (some rest) = not (length rest == 0) && all_digits rest

-- The filter on an entry's name.
unfoldable pub is_gpu_node : Bytes → Bool
is_gpu_node name = is_number (strip_prefix (ascii "nvidia") name)

unfoldable pub gpu_names : List Bytes → List Bytes
gpu_names [] = []
gpu_names (name ∷ names) =
    let rest = gpu_names names in if is_gpu_node name then name ∷ rest else rest

-- `sort`: paths in one directory are ordered by their names' bytes.
unfoldable pub insert_sorted : Bytes → List Bytes → List Bytes
insert_sorted x [] = x ∷ []
insert_sorted x (y ∷ ys) =
    let rest = insert_sorted x ys in if text_lt y x then y ∷ rest else x ∷ (y ∷ ys)

unfoldable pub sort : List Bytes → List Bytes
sort [] = []
sort (x ∷ xs) = insert_sorted x (sort xs)

-- The loop over the control nodes, with the test of whether a path exists.
unfoldable pub control_devices : (Bytes → Bool) → Bytes → List Bytes → Outcome (List Bytes)
control_devices exists dev [] = ok []
control_devices exists dev (name ∷ names) =
    let path = path_join dev name in
    let rest = chain (control_devices exists dev names) (λ devices. ok (path ∷ devices)) in
    if exists path
    then rest
    else err (
        message
          (ascii "--gpu: " ++ (from_utf8_lossy path ++ ascii " not found (NVIDIA driver loaded?)")))

unfoldable pub numbered_devices : Bytes → List Bytes → Outcome (List Bytes)
numbered_devices dev [] =
    err
      (message (ascii "--gpu: no " ++ (from_utf8_lossy dev ++ ascii "/nvidia[0-9]* device nodes")))
numbered_devices dev (name ∷ names) = ok (map (path_join dev) (sort (name ∷ names)))

-- Over the names in the directory, or the error of listing it.
unfoldable pub nvidia_device_nodes :
    (Bytes → Bool) → Outcome (List Bytes) → Bytes → Outcome (List Bytes)
nvidia_device_nodes exists listing dev = chain (control_devices exists dev control_nodes) λ devices.
    chain (add_context (ascii "read " ++ from_utf8_lossy dev) listing)
      λ names. chain (numbered_devices dev (gpu_names names)) λ gpus. ok (devices ++ gpus)

-- The definitions of this file, by one name for `unfolding` lines that run them.
unfoldable pub gpu_code : Unit {0}
unfolding all_digits is_gpu_node gpu_names insert_sorted sort control_devices numbered_devices
    nvidia_device_nodes
gpu_code = tt
