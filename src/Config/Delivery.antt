-- ===== src/Config/Delivery.antt =====
-- An agent table that agent_runner/config accepts hands the prompt over, and leaves the supervisor time.
use mathlib.Core.Path.{subst}
use cli_agent_runner.Prelude.{
  ◌&&◌, ◌<◌, List, String, any, false, is_empty, not, some, str_eq, true, ◌≡◌, Option, arith, none,
  ℕ, ◌≤◌,
}
use cli_agent_runner.ServePolicy.{round_term_grace_s}
use cli_agent_runner.Config.{AgentSection}
use cli_agent_runner.Config.Values.{TomlValue, TomlTable}
use cli_agent_runner.Config.Validators.{
  names, at_most, max_sigterm_grace_s, require_positive_int, validate_sigterm_grace_s,
}
use cli_agent_runner.Config.Agent.{parse_agent, has_prompt, valid_prompt_delivery}
use cli_agent_runner.Config.Accept.{Holds, then-Holds, then_any, guard-Holds, at_most-Holds}

-- The command is there, the grace of the agent ends before the supervisor's, and the prompt goes one way:
-- it has a place among the arguments where they deliver it, and none where stdin does.
pub record Delivers (a : AgentSection) : Type 0 where
  pub runs : is_empty a.command ≡ false
  pub grace_within : a.sigterm_grace_s < round_term_grace_s
  pub one_way : any has_prompt a.prompt_arg_template ≡ str_eq a.prompt_delivery "argv"

within :
    (o : Option ℕ) → Holds (λ n. n ≤ max_sigterm_grace_s) o → Holds (λ n. n < round_term_grace_s) o
within none h = tt
within (some n) h = omega (arith, h)

grace-Holds : (v : TomlValue) → Holds (λ n. n < round_term_grace_s) (validate_sigterm_grace_s v)
unfolding validate_sigterm_grace_s
grace-Holds v =
    then_any (λ n. n < round_term_grace_s) (require_positive_int v) (at_most max_sigterm_grace_s)
      (λ n. within (at_most max_sigterm_grace_s n) (at_most-Holds max_sigterm_grace_s n))

by_one_way :
    (delivery : String) (template : List String)
    → names delivery valid_prompt_delivery ≡ true
    → not (str_eq delivery "stdin" && any has_prompt template) ≡ true
    → not (str_eq delivery "argv" && true && not (any has_prompt template)) ≡ true
    → any has_prompt template ≡ str_eq delivery "argv"
by_one_way delivery template valid stdin argv = ground (arith, valid, stdin, argv)

agent-Holds : (d : TomlTable) → Holds Delivers (parse_agent true d)
unfolding parse_agent
agent-Holds d = then_any Delivers _ _ (λ u. then_any Delivers _ _ (λ p.
    then_any Delivers _ _ (λ template. then-Holds Delivers _ _ _ (guard-Holds _) (λ b1 valid.
      then-Holds Delivers _ _ _ (guard-Holds _) (λ b2 stdin.
        then-Holds Delivers _ _ _ (guard-Holds _) (λ b3 argv. then_any Delivers _ _ (λ c.
          then_any Delivers _ _ (λ command. then-Holds Delivers _ _ _ (guard-Holds _) (λ b4 runs.
            then_any Delivers _ _ (λ env_d. then_any Delivers _ _ (λ prefix.
              then-Holds Delivers (λ n. n < round_term_grace_s) _ _ (grace-Holds _)
                (λ g hg. record {
                  runs = ground (arith, runs);
                  grace_within = hg;
                  one_way = by_one_way _ template valid stdin argv;
                }))))))))))))

-- The base [agent] table, where it is accepted, has a command, a grace that ends before the supervisor's
-- own wait for the round, and a place for the prompt among its arguments exactly where they deliver it.
pub parse_agent-Delivers :
    (d : TomlTable) (a : AgentSection) → parse_agent true d ≡ some a → Delivers a
parse_agent-Delivers d a e = subst (Holds Delivers) e (agent-Holds d)
