-- ===== src/Httpapi/Environment.antt =====
-- The start of cmd/httpapi/helpers.go: the configuration and the logger. They are made before any
-- call, by the package's `init`.
use kt_cloud_operator.Common.{String, Option}
use kt_cloud_operator.Httpapi.Types.{Config}
use kt_cloud_operator.Runtime.Calls.{Error}
use kt_cloud_operator.Runtime.Env.{Result}
use kt_cloud_operator.Runtime.Effects.{M, pure, panics, lift, check, catch, ◌>>◌}

-- envconfig's `Process`, zapcore's `Level.UnmarshalText`, and `Config.Build` of zap.
module _ (process : Result Config) (unmarshal_text : String → Option Error)
    (build : String → Option Error) where
  unfoldable pub logger : String → M (Unit {0})
  logger log_level = do check (unmarshal_text log_level); check (build log_level)

  unfoldable pub process_env_variables : M Config
  process_env_variables =
      catch (lift process)
        (λ config. catch (logger config.log_level) (λ _. pure config) (λ e. panics e.text))
        (λ e. panics e.text)
