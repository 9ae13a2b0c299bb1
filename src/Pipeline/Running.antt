-- ===== src/Pipeline/Running.antt =====
-- The pipeline while a frame runs: its states, and what other code leaves alone.
use package.amdhardware_kernel.Common.{◌≡◌, ◌∙◌, arith}
use package.amdhardware_kernel.Pipeline.{
  PipelineMgr, PipelineState, pipe_fetch_vertex, pipe_execute_shader, pipe_rasterize, pipe_fragment,
}

-- A state in which the loop goes on.
pub data Running : PipelineState → Type 0 where
  fetching : Running pipe_fetch_vertex
  shading : Running pipe_execute_shader
  rasterizing : Running pipe_rasterize
  coloring : Running pipe_fragment

-- What a running frame relies on: its state is its own, and nobody completes it.
pub record Undisturbed (before after : PipelineMgr) : Type 0 where
  pub state : after.state ≡ before.state
  pub completed : after.completed ≡ before.completed

-- What only a reset of the statistics changes.
pub record CountsKept (before after : PipelineMgr) : Type 0 where
  pub stages : after.stages ≡ before.stages
  pub rasterizer : after.rasterizer ≡ before.rasterizer
  pub total_vertices : after.total_vertices ≡ before.total_vertices
  pub total_primitives : after.total_primitives ≡ before.total_primitives
  pub total_fragments : after.total_fragments ≡ before.total_fragments
  pub total_pixels : after.total_pixels ≡ before.total_pixels

pub CountsKept-refl : (mgr : PipelineMgr) → CountsKept mgr mgr
CountsKept-refl mgr = ground arith

pub Undisturbed-trans : {a b c : PipelineMgr} → Undisturbed a b → Undisturbed b c → Undisturbed a c
Undisturbed-trans p q = record { state = q.state ∙ p.state; completed = q.completed ∙ p.completed }

pub CountsKept-trans : {a b c : PipelineMgr} → CountsKept a b → CountsKept b c → CountsKept a c
CountsKept-trans p q = record {
  stages = q.stages ∙ p.stages;
  rasterizer = q.rasterizer ∙ p.rasterizer;
  total_vertices = q.total_vertices ∙ p.total_vertices;
  total_primitives = q.total_primitives ∙ p.total_primitives;
  total_fragments = q.total_fragments ∙ p.total_fragments;
  total_pixels = q.total_pixels ∙ p.total_pixels;
}
