-- ===== src/Kernel/Retry/Tests.antt =====
-- The retry delays at the configuration of a policy that doubles its delay.
use bounda.Kernel.Retry.{ResolvedRetryConfig, exponential}

abbrev doubling : ResolvedRetryConfig
doubling = record {
  strategy = exponential;
  max_attempts = 5;
  base_delay_ms = 1000;
  max_delay_ms = 60000;
}
