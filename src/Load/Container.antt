-- ===== src/Load/Container.antt =====
-- Container mode cleans up, and a summary counts whatever the exit code.
use tortureu.Base.{String, List, [], ◌∷◌, ◌≡◌, refl, inl, inr, ◌⊎◌, ◌++◌, All, Option-cases, ap}
use tortureu.Base.Result.{Result-cases, ok, err}
use tortureu.Base.Strings.{fields, trim_space}
use tortureu.Base.Strings.Words.{fields-trim_space}
use tortureu.Load.{
  last_of, K6Runner, Docker, Command, create, copy_in, start, copy_out, remove, start_container,
  run_container, container_id, attend, not_created, create_args,
}

-- a command on one container, other than its removal
abbrev pub IsUse : String → Command → Type 0
IsUse id (create args) = ⊥
IsUse id (copy_in i) = i ≡ id
IsUse id (start i) = i ≡ id
IsUse id (copy_out i) = i ≡ id
IsUse id (remove i) = ⊥

-- The commands end by removing the container, and before that they only use it.
abbrev pub Cleans : String → List Command → Type 0
Cleans id log = (uses : List Command) × (log ≡ uses ++ (remove id ∷ [])) × All (IsUse id) uses

run_container-Cleans : (d : Docker) (id : String) → Cleans id (run_container d id).0
unfolding run_container attend
run_container-Cleans d id = elim (Option-cases d.copied_in) [
  | inr (e, c) ↦ (copy_in id ∷ [], rw c, (refl, tt))
  | inl c ↦ elim (Option-cases d.stdout_pipe) [
    | inr (e, o) ↦ (copy_in id ∷ [], rw (c, o), (refl, tt))
    | inl o ↦ elim (Option-cases d.stderr_pipe) [
      | inr (e, p) ↦ (copy_in id ∷ [], rw (c, o, p), (refl, tt))
      | inl p ↦ elim (Option-cases d.started) [
        | inr (e, s) ↦ (copy_in id ∷ start id ∷ [], rw (c, o, p, s), (refl, (refl, tt)))
        | inl s ↦
            (copy_in id ∷ start id ∷ copy_out id ∷ [], rw (c, o, p, s), (refl, (refl, (refl, tt))))
      ]
    ]
  ]
]

-- the last word of a text, which is empty where the text has none
abbrev pub IsLastWord : String → String → Type 0
IsLastWord id out =
    ((words : List String) × (fields out ≡ words ++ (id ∷ [])))
    ⊎ ((fields out ≡ []) × (trim_space out ≡ id))

last_of-append :
    (s : String) (ws : List String)
    → (words : List String) × (s ∷ ws ≡ words ++ (last_of s ws ∷ []))
last_of-append s [] = ([], refl)
last_of-append s (w ∷ ws) = let (words, e) = last_of-append w ws in (s ∷ words, ap (λ l. s ∷ l) e)

container_id-last_of : (out : String) → container_id out ≡ last_of (trim_space out) (fields out)
unfolding container_id
container_id-last_of out = ap (last_of (trim_space out)) (fields-trim_space out)

container_id-IsLastWord : (out : String) → IsLastWord (container_id out) out
container_id-IsLastWord out = by_fields (fields out) refl
  where
    by_fields : (ws : List String) → fields out ≡ ws → IsLastWord (container_id out) out
    by_fields [] e = inr (e, rw (container_id-last_of out, e) refl)
    by_fields (w ∷ ws) e =
        let (words, h) = last_of-append w ws in inl (words, rw (container_id-last_of out, e) h)

-- Whatever docker answers to the commands of startContainer and of its goroutine, when these run to their
-- end: where docker creates no container nothing else is run and the start fails; where it creates one,
-- every other command is on the container that the last word of its output names, and the last one, which
-- comes once, is the one that removes it.
pub start_container-Cleans :
    (r : K6Runner) (d : Docker)
    → ((e : String) × (d.created ≡ err e)
        × (start_container r d ≡ (create (create_args r) ∷ [], err (not_created e))))
      ⊎ ((out : String) × (id : String) × (log : List Command) × (d.created ≡ ok out)
          × IsLastWord id out
          × ((start_container r d).0 ≡ create (create_args r) ∷ log)
          × Cleans id log)
unfolding start_container
start_container-Cleans r d = elim (Result-cases d.created) [
  | inr (e, c) ↦ inl (e, c, rw c)
  | inl (out, c) ↦
      let id = container_id out in
      inr (
        out,
        id,
        (run_container d id).0,
        c,
        container_id-IsLastWord out,
        rw c,
        run_container-Cleans d id,
      )
]
