-- ===== src/Charts.antt =====
-- Charts: frontend/src/components/use-chart-interaction.ts, line-chart.tsx and
-- frontend/src/lib/chart-ticks.ts.
pub mod Interaction
pub mod TimeTicks
pub mod Lines
pub mod Series
pub mod Bars
